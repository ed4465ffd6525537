-- ===== src/Dnssec/Status.antt =====
-- The verdicts and the work budget of the validator (src/dnssec.rs).
use rust_encrypted_dns_serve.Base.{ℕ, ◌+◌, Bool, true, false, if◌then◌else◌, leb}

pub data DnssecStatus : Type 0 where
  secure insecure_unsigned insecure_unknown bogus : DnssecStatus

pub data ZoneSignedness : Type 0 where
  signed proven_unsigned unknown : ZoneSignedness

abbrev pub per_validation_max_sig_checks : ℕ
per_validation_max_sig_checks = 24

-- `performed` is no field of the source: it counts the calls of `verify_rrsig`, as they happen.
pub record ValidationBudget : Type 0 where
  pub sig_checks : ℕ
  pub max_sig_checks : ℕ
  pub performed : ℕ

unfoldable pub default_budget : ValidationBudget
default_budget = record {
  sig_checks = 0;
  max_sig_checks = per_validation_max_sig_checks;
  performed = 0;
}

-- `can_check_sig`: the test, and the budget after it.
unfoldable pub can_check_sig : ValidationBudget → ValidationBudget × Bool
can_check_sig b =
    if leb b.max_sig_checks b.sig_checks
    then (b, false)
    else (record b { sig_checks = b.sig_checks + 1 }, true)

-- A call of `verify_rrsig`, whatever it says.
abbrev pub perform : ValidationBudget → ValidationBudget
perform b = record b { performed = b.performed + 1 }

-- The two verdicts that a denial of a DS record may be built on.
abbrev pub is_proven : DnssecStatus → Bool
is_proven secure = true
is_proven insecure_unsigned = true
is_proven insecure_unknown = false
is_proven bogus = false
