-- ===== src/Jit/Tests.antt =====
-- Tests and witnesses for p1 as a whole, with a disk that holds one program and what was built from it.
use operating_systems_cs.Common.{ℕ, true, Option, none, some, ◌≡◌, refl}
use operating_systems_cs.Codegen.{Program, evaluate}
use operating_systems_cs.Codegen.Tests.{double}
use operating_systems_cs.Jit.{
  Platform, Waited, Jitc, so_file, evaluate_name, jitc_open, jitc_lookup, jitc_close,
}

record Disk : Type 0 where
  source : Option (Program ℕ)
  object : Option ℕ

abbrev from_value : Program ℕ → Option ℕ → Option Waited × Disk
from_value p none = (some (Waited.exited 1), record { source = some p; object = none })
from_value p (some x) = (some (Waited.exited 0), record { source = some p; object = some x })

abbrev compiled : Option (Program ℕ) → Option Waited × Disk
compiled none = (some (Waited.exited 1), record { source = none; object = none })
compiled (some p) = from_value p (evaluate double p)

abbrev or_zero : Option ℕ → ℕ
or_zero none = 0
or_zero (some x) = x

abbrev disk : Platform ℕ
disk = record {
  World = Disk;
  write_file = λ w path p. some (record { source = some p; object = none });
  fork = λ w. true;
  execv = λ w path arguments. compiled w.source;
  waitpid = λ w. true;
  dlopen = λ w path. ap_some w.object;
  dlsym = λ w h symbol. some 1;
  call = λ w f. or_zero w.object;
  unlink = λ w path. record { source = w.source; object = none };
}
  where
    ap_some : Option ℕ → Option ℕ
    ap_some none = none
    ap_some (some x) = some 1

-- A handle whose library is not there cannot be used.
unopened_test :
    (jitc_open disk true (record { source = none; object = none }) so_file ≡ Jitc.freed)
    × (jitc_lookup disk (record { source = none; object = none }) Jitc.freed evaluate_name ≡ none)
    × (jitc_close Jitc.freed ≡ none)
unfolding jitc_open jitc_lookup jitc_close
unopened_test = (refl, refl, refl)

abbrev blank : Disk
blank = record { source = none; object = none }
