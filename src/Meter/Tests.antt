-- ===== src/Meter/Tests.antt =====
-- Tests and witnesses for the cpu meter of p5/main.c.
use operating_systems_cs.Common.{ℕ, ◌-◌, ◌^◌, true, some, List, [], ◌∷◌, ◌≡◌, refl, arith}
use operating_systems_cs.Common.Text.{CString, isspace}
use operating_systems_cs.Meter.{
  Doubles, strstr_space, skip_space, is_digit, starts_digit, scan_digits, take_sign, scan_number,
  scan_numbers, convert, Meter, new_meter, cpu_util, interrupted, got, stopped, main,
}
use operating_systems_cs.Meter.Lines.{stat_line, NoSpace}
use operating_systems_cs.Meter.Runs.{
  Follows, HasRead, share, cpu_util-share, shares, boot, main-shares,
}

-- The expressions themselves, for the doubles.
data Expression : Type 0 where
  number : ℕ → Expression
  difference_of product_of quotient_of : Expression → Expression → Expression

abbrev expressions : Doubles
expressions = record {
  Double = Expression;
  of_unsigned = number;
  minus = difference_of;
  times = product_of;
  over = quotient_of;
}

abbrev cpu : CString
cpu = 99 ∷ 112 ∷ 117 ∷ []

-- A wrapped counter, a sign and a short line.
cpu_util_test :
    (cpu_util expressions (99 ∷ 32 ∷ 49 ∷ 32 ∷ 43 ∷ 50 ∷ []) new_meter ≡ (number 0, new_meter))
    × (scan_number (32 ∷ 45 ∷ 49 ∷ []) ≡ some (2 ^ 32 - 1, []))
    × (convert true (2 ^ 64) ≡ 2 ^ 32 - 1)
unfolding cpu_util strstr_space skip_space is_digit starts_digit scan_digits take_sign scan_number
    scan_numbers isspace convert
cpu_util_test = (refl, refl, refl)

abbrev before : List ℕ
before = 5 ∷ 1 ∷ 2 ∷ 4294967250 ∷ 0 ∷ 0 ∷ 3 ∷ []

abbrev behind : List ℕ
behind = 25 ∷ 1 ∷ 2 ∷ 4294967300 ∷ 0 ∷ 0 ∷ 3 ∷ []

abbrev full_meter : Meter
full_meter = record { sum = 4294967261; vector = 5 ∷ 1 ∷ 2 ∷ 4294967250 ∷ 0 ∷ 0 ∷ 3 ∷ [] }

before_read : HasRead before full_meter
before_read = record { sum = omega arith; vector = refl }

behind-Follows : Follows before behind
behind-Follows = record {
  seven = refl;
  digits = (
    omega arith,
    (omega arith, (omega arith, (omega arith, (omega arith, (omega arith, (omega arith, tt)))))),
  );
  idle_up = omega arith;
  idle_few = omega arith;
  total_up = omega arith;
  total_few = omega arith;
}

before-Follows : Follows boot before
before-Follows = record {
  seven = refl;
  digits = (
    omega arith,
    (omega arith, (omega arith, (omega arith, (omega arith, (omega arith, (omega arith, tt)))))),
  );
  idle_up = omega arith;
  idle_few = omega arith;
  total_up = omega arith;
  total_few = omega arith;
}

no_space : NoSpace cpu
no_space = (λ e. omega (arith, e), (λ e. omega (arith, e), (λ e. omega (arith, e), tt)))

cpu_util-share_example :
    ((cpu_util expressions (stat_line cpu behind (10 ∷ [])) full_meter).0
      ≡ share expressions before behind)
    × HasRead behind (cpu_util expressions (stat_line cpu behind (10 ∷ [])) full_meter).1
cpu_util-share_example =
    cpu_util-share expressions before behind cpu (10 ∷ []) full_meter before_read behind-Follows
      no_space (unfold starts_digit is_digit in refl)

main-shares_example :
    main expressions true (
      got (stat_line cpu before (10 ∷ []))
      ∷ got (stat_line cpu behind (10 ∷ []))
      ∷ interrupted
      ∷ [])
    ≡ (shares expressions boot (before ∷ behind ∷ []), stopped)
main-shares_example =
    main-shares expressions (before ∷ behind ∷ []) cpu (10 ∷ []) []
      (before-Follows, (behind-Follows, tt)) no_space (unfold starts_digit is_digit in refl)
