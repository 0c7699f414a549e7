-- ===== src/Query/Policy.antt =====
-- `QueryValidationPolicy` of src/yodb/query/validation.py: the bounds of a deployment. The limits
-- are natural numbers, so the check that none is negative always passes.
use yo_db.Base.{ℕ, String, none, some, []}
use yo_db.Base.Tests.{eqb, ltb, if◌then◌else◌}
use yo_db.Base.Dicts.{Dict, get}
use yo_db.Errors.{Result, ok, crash, value_error}

pub record QueryValidationPolicy : Type 0 where
  pub default_page_size : ℕ
  pub maximum_page_size : ℕ
  pub maximum_in_values : ℕ
  pub limits : Dict ℕ

unfoldable pub limit : QueryValidationPolicy → String → ℕ → ℕ
limit policy name default = elim (get policy.limits name) [ none ↦ default | some n ↦ n ]

-- `__post_init__`
unfoldable pub checked_policy : QueryValidationPolicy → Result QueryValidationPolicy
checked_policy policy =
    if eqb policy.default_page_size 0
    then crash value_error
    else if ltb policy.maximum_page_size policy.default_page_size
    then crash value_error
    else if eqb policy.maximum_in_values 0
    then crash value_error
    else ok policy

-- `QueryValidationPolicy()`
abbrev pub default_policy : QueryValidationPolicy
default_policy = record {
  default_page_size = 100;
  maximum_page_size = 500;
  maximum_in_values = 1000;
  limits = [];
}
