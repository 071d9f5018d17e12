-- ===== src/Device/Geometry.antt =====
-- The size and the block of a device that p4/device.c has opened.
use native.Mathlib.Nat.{mul_comm, div-add-mod, mod-lt}
use operating_systems_cs.Common.{
  ◌⊎◌, ℕ, ◌+◌, ◌*◌, ◌/◌, ◌%◌, ◌^◌, ◌<◌, ◌≤◌, Bool, true, false, Bool-cases, ◌==◌, Option, none,
  some, ◌≡◌, refl, sym, ap, subst, ◌∙◌, inl, inr, arith, ==_iff,
}
use operating_systems_cs.Device.{
  Stat, no_stat, regular, block_device, other_file, Device, set_geometry, geometry, Opened, opened,
  refused, closes, close_device, device_open,
}

-- The size is the largest number of whole blocks in the bytes of the file.
pub record Sized (fd bytes size : ℕ) (d : Device) : Type 0 where
  pub descriptor : d.fd ≡ fd
  pub block : d.block ≡ size
  pub positive : 0 < size
  pub whole : (q : ℕ) × (d.size ≡ q * size)
  pub inside : d.size ≤ bytes
  pub most : bytes < d.size + size

abbrev pub Measured : ℕ → ℕ → ℕ → Option Device → Type 0
Measured fd bytes size none = (size ≡ 0) ⊎ (bytes ≡ 0)
Measured fd bytes size (some d) = Sized fd bytes size d

abbrev pub Outcome : ℕ → Stat → Option Device → Type 0
Outcome fd no_stat o = o ≡ none
Outcome fd (regular st_size st_blksize) o = Measured fd (st_size % 2 ^ 64) (st_blksize % 2 ^ 32) o
Outcome fd (block_device none size) o = o ≡ none
Outcome fd (block_device (some bytes) none) o = o ≡ none
Outcome fd (block_device (some bytes) (some size)) o =
    Measured fd (bytes % 2 ^ 64) (size % 2 ^ 32) o
Outcome fd other_file o = o ≡ none

-- Whole blocks `x` and a rest `r` that is less than a block.
whole_blocks :
    (x r a b : ℕ)
    → x + r ≡ a
    → r < b
    → a < 2 ^ 64
    → (x % 2 ^ 64 ≡ x) × (x % 2 ^ 64 ≤ a) × (a < x % 2 ^ 64 + b)
whole_blocks x r a b e l h = (omega (arith, e, h), omega (arith, e, h), omega (arith, e, l, h))

set_geometry-Measured : (d : Device) (a b : ℕ) → a < 2 ^ 64 → Measured d.fd a b (set_geometry d a b)
unfolding set_geometry
set_geometry-Measured d a b l = elim (Bool-cases (b == 0)) [
  | inl z ↦ rw z (inl ((==_iff b 0).0 z))
  | inr p ↦ elim (Bool-cases (a == 0)) [
    | inl z ↦ rw (p, z) (inr ((==_iff a 0).0 z))
    | inr n ↦
        let pos : 0 < b = ground (arith, p) in
        let parts = ap (λ x. x + a % b) (mul_comm (a / b) b) ∙ div-add-mod a b in
        let (kept, inside, most) = whole_blocks (a / b * b) (a % b) a b parts (mod-lt a pos) l in
        rw (p, n)
          (record {
            descriptor = refl;
            block = refl;
            positive = pos;
            whole = (a / b, kept);
            inside = inside;
            most = most;
          })
  ]
]

geometry-Outcome : (d : Device) (stat : Stat) → Outcome d.fd stat (geometry d stat)
unfolding geometry
geometry-Outcome d no_stat = refl
geometry-Outcome d (regular st_size st_blksize) =
    set_geometry-Measured d (st_size % 2 ^ 64) (st_blksize % 2 ^ 32) (omega arith)
geometry-Outcome d (block_device none size) = refl
geometry-Outcome d (block_device (some bytes) none) = refl
geometry-Outcome d (block_device (some bytes) (some size)) =
    set_geometry-Measured d (bytes % 2 ^ 64) (size % 2 ^ 32) (omega arith)
geometry-Outcome d other_file = refl

-- An opened device has its descriptor and the geometry of its file; of the descriptors that are not given
-- to a device only 0 stays open.
abbrev pub Opens : Bool → Option ℕ → Stat → Opened → Type 0
Opens memory fd stat (opened d) = (fd ≡ some d.fd) × (0 < d.fd) × Outcome d.fd stat (some d)
Opens memory fd stat (refused none) =
    (memory ≡ false) ⊎ (fd ≡ none) ⊎ ((n : ℕ) × (fd ≡ some n) × Outcome n stat none)
Opens memory fd stat (refused (some n)) = (fd ≡ some 0) × (n ≡ 0)

outcome_fd : (fd : ℕ) (stat : Stat) (d : Device) → Outcome fd stat (some d) → d.fd ≡ fd
outcome_fd fd no_stat d o = absurd (ground (arith, o))
outcome_fd fd (regular st_size st_blksize) d o = o.descriptor
outcome_fd fd (block_device none size) d o = absurd (ground (arith, o))
outcome_fd fd (block_device (some bytes) none) d o = absurd (ground (arith, o))
outcome_fd fd (block_device (some bytes) (some size)) d o = o.descriptor
outcome_fd fd other_file d o = absurd (ground (arith, o))

close_device-Opens :
    (n : ℕ) (stat : Stat) → (n == 0) ≡ true → Opens true (some n) stat (close_device n)
unfolding close_device closes
close_device-Opens n stat e = rw e (ap some ((==_iff n 0).0 e), (==_iff n 0).0 e)

opened_end :
    (n : ℕ) (stat : Stat) (o : Option Device)
    → (n == 0) ≡ false
    → Outcome n stat o
    → Opens true (some n) stat (elim o [ some device ↦ opened device | none ↦ close_device n ])
unfolding close_device closes
opened_end n stat none e h = rw e (inr (inr (n, refl, h)))
opened_end n stat (some d) e h =
    let same = outcome_fd n stat d h in
    (ap some (sym same), ground (arith, same, e), subst (λ m. Outcome m stat (some d)) (sym same) h)

-- A device that `device_open` gives has a positive descriptor, the size of its blocks, which are not
-- empty, and as its size the largest number of whole blocks that its file or volume holds. It gives none
-- where there is no memory, `open` or the geometry fails, or the descriptor is 0, which is the only one
-- that then stays open.
pub device_open-Opens :
    (memory : Bool) (fd : Option ℕ) (stat : Stat)
    → Opens memory fd stat (device_open memory fd stat)
unfolding device_open
device_open-Opens false fd stat = inl refl
device_open-Opens true none stat = inr (inl refl)
device_open-Opens true (some n) stat = elim (Bool-cases (n == 0)) [
  | inl e ↦ rw (e, device_open) (close_device-Opens n stat e)
  | inr e ↦
      rw (e, device_open)
        (opened_end n stat (geometry (record { fd = n; size = 0; block = 0 }) stat) e
          (geometry-Outcome (record { fd = n; size = 0; block = 0 }) stat))
]
