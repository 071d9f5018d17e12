-- ===== src/Session/Runs.antt =====
-- A run of p3 from its command line: the tree that avl_open gives, and the shell on it.
use operating_systems_cs.Common.{ℕ, Bool, true, false, ◌==◌, Option, none, some, List, [], ◌≡◌, ◌⊎◌}
use operating_systems_cs.Common.Text.{CString}
use operating_systems_cs.Avl.{Scm, null, Avl}
use operating_systems_cs.Avl.Words.{IsValid}
use operating_systems_cs.Commands.{World}
use operating_systems_cs.Console.Runs.{Sound}
use operating_systems_cs.Session.{
  Flags, no_flags, parsed, helped, invalid, parse_args, Files, sizeof_state, new_history, Ended,
  helps, usage, complains, no_tree, ran, old_tree,
}

module _ {scm : Scm} (world : World scm) (files : Files scm) where
  -- A file whose region is empty or has a well-formed tree at its base.
  unfoldable pub HoldsTree : CString → Type 0
  HoldsTree name =
      (region : scm.Region)
      → files.scm_open name false ≡ some region
      → (world.utilized region == 0) ≡ false
      → IsValid (old_tree world files region)

  -- What p3/scm.h says of a truncated region: it has no bytes in use.
  abbrev pub IsCleared : Type 0
  IsCleared =
      (name : CString) (region : scm.Region)
      → files.scm_open name true ≡ some region
      → (world.utilized region == 0) ≡ true

  -- Why there is no tree.
  pub data Refused (memory : Bool) (name : CString) (truncate : Bool) : Type 0 where
    no_memory : memory ≡ false → Refused memory name truncate
    no_region : files.scm_open name truncate ≡ none → Refused memory name truncate
    no_state :
        (region : scm.Region)
        → files.scm_open name truncate ≡ some region
        → (scm.scm_malloc region sizeof_state).0 ≡ false
        → Refused memory name truncate

  -- Where the tree comes from: it is empty and the region had no bytes in use; or it is the one at the base of
  -- the region, which was not truncated.
  pub data Origin (name : CString) (truncate : Bool) (avl : Avl scm) : Type 0 where
    fresh :
        (region : scm.Region)
        → files.scm_open name truncate ≡ some region
        → (world.utilized region == 0) ≡ true
        → avl.items ≡ 0
        → avl.unique ≡ 0
        → avl.root ≡ null
        → Origin name truncate avl
    kept :
        (region : scm.Region)
        → truncate ≡ false
        → files.scm_open name truncate ≡ some region
        → (avl.items, (avl.unique, avl.root)) ≡ files.scm_mbase region
        → Origin name truncate avl

  module _ (cleared : IsCleared) where
    -- What `avl_open` gives, or why it gives none.
    Opens : Bool → CString → Bool → Option (Avl scm) → Type 0
    Opens memory name truncate none = Refused memory name truncate
    Opens memory name truncate (some avl) = IsValid avl × Origin name truncate avl

    module _ (memory : Bool) (args : List CString) (keys : List ℕ) where
      -- What each end of a run tells of the command line, the files and the shell.
      pub Told : Ended scm → Type 0
      Told helps = parse_args args no_flags ≡ helped
      Told (complains a) = parse_args args no_flags ≡ invalid a
      Told usage =
          (o : Flags) × (parse_args args no_flags ≡ parsed o)
          × ((o.pathname ≡ none) ⊎ (o.pathname ≡ some []))
      Told no_tree =
          (o : Flags) × (name : CString) × (parse_args args no_flags ≡ parsed o)
          × (o.pathname ≡ some name)
          × Refused memory name o.truncate
      Told (ran l) =
          (o : Flags) × (name : CString) × (avl : Avl scm) × (parse_args args no_flags ≡ parsed o)
          × (o.pathname ≡ some name)
          × Origin name o.truncate avl
          × Sound scm world (record { state = new_history; avl = avl; said = []; keys = keys }) l
