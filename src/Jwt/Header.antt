-- ===== src/Jwt/Header.antt =====
-- The `Authorization` header.
use go_utilities.Base.{
  ◌≡◌, refl, ◌∙◌, sym, ap, subst, All, ◌↔◌, List, [], ◌∷◌, ◌++◌, arith, ◌==◌, Bool-cases, inl, inr,
}
use go_utilities.Base.Text.{Text, split, join, trim, text_beq_iff, text_eq}
use go_utilities.Base.Text.Laws.{Lacks, join-split, split-Lacks, split-join}
use go_utilities.Jwt.{ok, err, header_missing, bearer, second_of_bearer, extract_token}

second_of_bearer-ok :
    (parts : List Text) (token : Text)
    → second_of_bearer parts ≡ ok token
    → parts ≡ bearer ∷ token ∷ []
unfolding second_of_bearer
second_of_bearer-ok (scheme ∷ t ∷ []) token h = ground (arith, text_beq_iff scheme bearer)
second_of_bearer-ok [] token h = cc
second_of_bearer-ok (a ∷ []) token h = cc
second_of_bearer-ok (a ∷ b ∷ c ∷ d) token h = cc

module _ (header token : Text) where
  split_of_taken :
      extract_token header ≡ ok token → split b' ' (trim b';' header) ≡ bearer ∷ token ∷ []
  unfolding extract_token
  split_of_taken h = elim (Bool-cases (trim b';' header == [])) [
    | inl missing ↦ absurd (err-ne-ok (rw missing at h))
    | inr present ↦ second_of_bearer-ok (split b' ' (trim b';' header)) token (rw present at h)
  ]
    where
      err-ne-ok : err header_missing ≡ ok token → ⊥
      err-ne-ok e = cc

  taken :
      extract_token header ≡ ok token
      → (trim b';' header ≡ bearer ++ b' ' ∷ token) × Lacks b' ' token
  unfolding join
  taken h = (
    sym (join-split b' ' (trim b';' header)) ∙ ap (join b' ') (split_of_taken h),
    (subst (All (Lacks b' ')) (split_of_taken h) (split-Lacks b' ' (trim b';' header))).1.0,
  )

  bearer-Lacks : Lacks b' ' bearer
  bearer-Lacks = omega arith

  split_of_bearer : Lacks b' ' token → split b' ' (bearer ++ b' ' ∷ token) ≡ bearer ∷ token ∷ []
  unfolding join
  split_of_bearer l = split-join b' ' bearer (token ∷ []) (bearer-Lacks, (l, tt))

  second_of_bearer_lem : second_of_bearer (bearer ∷ token ∷ []) ≡ ok token
  unfolding second_of_bearer
  second_of_bearer_lem = refl

  given :
      trim b';' header ≡ bearer ++ b' ' ∷ token → Lacks b' ' token → extract_token header ≡ ok token
  unfolding extract_token
  given e l = rw e (rw (split_of_bearer l) second_of_bearer_lem)

-- A token is extracted exactly when the header, without the semicolons at its ends, is "Bearer", one
-- space and the token, and the token holds no space.
pub extract_token_iff :
    (header token : Text)
    → (extract_token header ≡ ok token)
      ↔ ((trim b';' header ≡ bearer ++ b' ' ∷ token) × Lacks b' ' token)
extract_token_iff header token = (taken header token, λ (e, l). given header token e l)
