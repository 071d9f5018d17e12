-- ===== src/Meter/Runs.antt =====
-- What p5/main.c shows: the share of the time between two lines, also where the counters wrap.
use operating_systems_cs.Common.{
  ℕ, zero, suc, ◌+◌, ◌-◌, ◌%◌, ◌^◌, ◌<◌, ◌≤◌, true, false, some, ◌>>=◌, List, [], ◌∷◌, ◌++◌, map,
  length, get_or, ◌≡◌, refl, sym, ap, ap₂, ◌∙◌, arith,
}
use operating_systems_cs.Common.Text.{CString}
use operating_systems_cs.Meter.{
  Doubles, scan_numbers, strstr_space, starts_digit, Meter, new_meter, add_all, difference, Ending,
  stopped, Answer, interrupted, got, utilization, measure, cpu_util, watch, main,
}
use operating_systems_cs.Meter.Lines.{
  stat_line, spaced, NoSpace, AllBelow, wrap, strstr_line, scan_line, scan_more_space,
}

abbrev pub total : List ℕ → ℕ
total [] = 0
total (n ∷ ns) = n + total ns

abbrev pub idle : List ℕ → ℕ
idle counters = get_or counters 3 0

-- The meter has read these counters.
pub record HasRead (counters : List ℕ) (meter : Meter) : Type 0 where
  pub sum : meter.sum ≡ total counters % 2 ^ 32
  pub vector : meter.vector ≡ map wrap counters

-- Seven counters of 64 bits that follow others, with at least one tick and less than 2 ^ 32 between them.
pub record Follows (old new : List ℕ) : Type 0 where
  pub seven : length new ≡ 7
  pub digits : AllBelow (2 ^ 64) new
  pub idle_up : idle old ≤ idle new
  pub idle_few : idle new < idle old + 2 ^ 32
  pub total_up : total old < total new
  pub total_few : total new < total old + 2 ^ 32

-- Sets of counters, each following the one before.
abbrev pub Rises : List ℕ → List (List ℕ) → Type 0
Rises old [] = Unit
Rises old (new ∷ news) = Follows old new × Rises new news

-- The counters when the machine starts.
abbrev pub boot : List ℕ
boot = 0 ∷ 0 ∷ 0 ∷ 0 ∷ 0 ∷ 0 ∷ 0 ∷ []

add_all-wrap :
    (ns : List ℕ) (sum : ℕ) → add_all (map wrap ns) (sum % 2 ^ 32) ≡ (sum + total ns) % 2 ^ 32
unfolding add_all
add_all-wrap [] sum = omega arith
add_all-wrap (n ∷ ns) sum =
    ap (add_all (map wrap ns)) (omega arith) ∙ add_all-wrap ns (sum + n) ∙ omega arith

get_or-wrap : (ns : List ℕ) (i : ℕ) → get_or (map wrap ns) i 0 ≡ wrap (get_or ns i 0)
get_or-wrap [] i = refl
get_or-wrap (n ∷ ns) zero = refl
get_or-wrap (n ∷ ns) (suc i) = get_or-wrap ns i

difference-wrap : (a b : ℕ) → b ≤ a → a < b + 2 ^ 32 → difference (wrap a) (wrap b) ≡ a - b
difference-wrap a b l h = omega (arith, l, h)

module _ (doubles : Doubles) where
  -- The part of the time between two sets of counters that was not idle, in percent: 1 less the idle ticks by
  -- all of the ticks, by 100.
  abbrev pub share : List ℕ → List ℕ → doubles.Double
  share old new =
      doubles.times
        (doubles.minus (doubles.of_unsigned 1) (
          doubles.over (doubles.of_unsigned (idle new - idle old))
            (doubles.of_unsigned (total new - total old))))
        (doubles.of_unsigned 100)

  measure-share :
      (old new : List ℕ) (meter : Meter)
      → HasRead old meter
      → Follows old new
      → ((measure doubles (map wrap new) meter).0 ≡ share old new)
        × HasRead new (measure doubles (map wrap new) meter).1
  unfolding measure utilization
  measure-share old new meter h f =
      let sum : add_all (map wrap new) 0 ≡ total new % 2 ^ 32 =
        add_all-wrap new 0 ∙ ap wrap (omega arith) in
      let parts : difference (get_or (map wrap new) 3 0) (get_or meter.vector 3 0)
          ≡ idle new - idle old =
        ap₂ difference (get_or-wrap new 3) (ap (λ v. get_or v 3 0) h.vector ∙ get_or-wrap old 3)
        ∙ difference-wrap (idle new) (idle old) f.idle_up f.idle_few in
      let whole : difference (add_all (map wrap new) 0) meter.sum ≡ total new - total old =
        ap₂ difference sum h.sum
        ∙ difference-wrap (total new) (total old) (omega (arith, f.total_up)) f.total_few in
      (ap₂ (utilization doubles) parts whole, record { sum = sum; vector = refl })

  -- On a line of seven counters of less than 2 ^ 64, which follow those that were read before with at least one
  -- tick and less than 2 ^ 32 between them, cpu_util gives 1 less the idle ticks by all of the ticks between the
  -- two, by 100, though its variables wrap at 2 ^ 32, and has then read the new counters.
  pub cpu_util-share :
      (old new : List ℕ) (name tail : CString) (meter : Meter)
      → HasRead old meter
      → Follows old new
      → NoSpace name
      → starts_digit tail ≡ false
      → ((cpu_util doubles (stat_line name new tail) meter).0 ≡ share old new)
        × HasRead new (cpu_util doubles (stat_line name new tail) meter).1
  unfolding cpu_util
  cpu_util-share old new name tail meter h f n t =
      let scanned : scan_numbers 7 (32 ∷ spaced new tail) ≡ some (map wrap new) =
        scan_more_space 6 (spaced new tail)
        ∙ ap (λ k. scan_numbers k (spaced new tail)) (sym f.seven)
        ∙ scan_line new tail f.digits t in
      let parsed : (strstr_space (stat_line name new tail) >>= scan_numbers 7)
          ≡ some (map wrap new) =
        rw (strstr_line name (spaced new tail) n, ◌>>=◌) scanned in
      rw (parsed, cpu_util) (measure-share old new meter h f)

  -- The shares between each line and the one before.
  abbrev pub shares : List ℕ → List (List ℕ) → List doubles.Double
  shares old [] = []
  shares old (new ∷ rest) = share old new ∷ shares new rest

  watch-shares :
      (old : List ℕ) (news : List (List ℕ)) (name tail : CString) (meter : Meter)
      (rest : List Answer)
      → HasRead old meter
      → Rises old news
      → NoSpace name
      → starts_digit tail ≡ false
      → watch doubles (map (λ c. got (stat_line name c tail)) news ++ (interrupted ∷ rest)) meter
        ≡ (shares old news, stopped)
  unfolding watch
  watch-shares old [] name tail meter rest h f n t = refl
  watch-shares old (new ∷ news) name tail meter rest h f n t =
      let (shown, read) = cpu_util-share old new name tail meter h f.0 n t in
      let later =
        watch-shares new news name tail (cpu_util doubles (stat_line name new tail) meter).1 rest
          read f.1 n t in
      ap₂ (λ u (after : List doubles.Double × Ending). (u ∷ after.0, after.1)) shown later

  -- As long as /proc/stat gives lines of seven counters of less than 2 ^ 64, each following the one before with
  -- at least one tick and less than 2 ^ 32 between them, main shows the share of the time that was not idle since
  -- the boot and then between the lines, and it ends after the signal with 0.
  pub main-shares :
      (news : List (List ℕ)) (name tail : CString) (rest : List Answer)
      → Rises boot news
      → NoSpace name
      → starts_digit tail ≡ false
      → main doubles true (map (λ c. got (stat_line name c tail)) news ++ (interrupted ∷ rest))
        ≡ (shares boot news, stopped)
  unfolding main new_meter
  main-shares news name tail rest f n t =
      watch-shares boot news name tail new_meter rest (record { sum = omega arith; vector = refl })
        f n t
