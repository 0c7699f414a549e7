-- ===== src/Query/Parser/Defaults.antt =====
-- The terms of the repository raise nothing but structured errors when they parse.
use yo_db.Base.{String, ◌≡◌, false, [], ◌∷◌}
use yo_db.Base.Strings.{◌<>◌, is_blank}
use yo_db.Errors.{Safe, Safe-bind}
use yo_db.Query.Raw.{Raw, entry_at}
use yo_db.Query.Shape.{mapping_of, reject_unknown, non_empty_string}
use yo_db.Query.Semantic.{parse_semantic, default_terms}
use yo_db.Query.Parser.Limits.{TermsAreSafe, Safe-shape, Safe-non_empty_string, Safe-reject}

semantic-Safe : (raw : Raw) (location : String) → Safe (λ _. Unit {0}) (parse_semantic raw location)
unfolding parse_semantic
semantic-Safe raw location =
    Safe-bind (λ _. Unit {0}) (λ _. Unit {0}) (mapping_of raw location) _
      (Safe-shape raw location).0
      λ body _.
        Safe-bind (λ _. Unit {0}) (λ _. Unit {0})
          (reject_unknown body ("field" ∷ "proposition" ∷ []) location) _
          (Safe-reject body ("field" ∷ "proposition" ∷ []) location)
          λ _ _.
            Safe-bind (λ s. is_blank s ≡ false) (λ _. Unit {0})
              (non_empty_string (entry_at body "field") (location <> ".field")) _
              (Safe-non_empty_string (entry_at body "field") (location <> ".field"))
              λ field _.
                Safe-bind (λ s. is_blank s ≡ false) (λ _. Unit {0})
                  (non_empty_string (entry_at body "proposition") (location <> ".proposition")) _
                  (Safe-non_empty_string (entry_at body "proposition") (location <> ".proposition"))
                  λ _ _. tt

pub default_terms-TermsAreSafe : TermsAreSafe default_terms
default_terms-TermsAreSafe = (semantic-Safe, tt)
