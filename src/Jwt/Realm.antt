-- ===== src/Jwt/Realm.antt =====
-- The realm in an issuer's path.
use go_utilities.Base.{
  ◌≡◌, refl, ap, ap₂, ◌↔◌, ◌≢◌, ◌≤◌, List, [], ◌∷◌, ◌++◌, arith, ◌==◌, Bool-cases, inl, inr, ltb,
  length, All,
}
use go_utilities.Base.Text.{Text, split, trim, text_beq_iff, ne_of_text_beq, text_eq}
use go_utilities.Jwt.{
  ok, err, realms, realm_after, find_realm, extract_realm_from_path, realm_not_found,
}

-- `parts` holds the segment "realms", first with `realm` right after it.
abbrev pub Names : Text → List Text → Type 0
Names realm parts =
    (before : List Text) × (after : List Text) × (parts ≡ before ++ realms ∷ realm ∷ after)
    × All (λ part. part ≢ realms) before

realm_after-ok :
    (ps : List Text) (realm : Text)
    → realm_after ps ≡ ok realm
    → (after : List Text) × (ps ≡ realm ∷ after) × (realm ≢ [])
realm_after-ok [] realm h = cc
realm_after-ok (part ∷ ps) realm h = elim (Bool-cases (part == [])) [
  | inl empty ↦ absurd (err-ne-ok (rw empty at h))
  | inr kept ↦ (
    ps,
    ground (arith, rw kept at h),
    λ e. ne_of_text_beq part [] kept (ground (arith, rw kept at h)),
  )
]
  where
    err-ne-ok : err realm_not_found ≡ ok realm → ⊥
    err-ne-ok e = cc

find_realm-Names :
    (parts : List Text) (realm : Text)
    → find_realm parts ≡ ok realm
    → Names realm parts × (realm ≢ [])
unfolding find_realm
find_realm-Names [] realm h = cc
find_realm-Names (part ∷ parts) realm h = elim (Bool-cases (part == realms)) [
  | inl hit ↦
      let (after, e, nonempty) = realm_after-ok parts realm (rw hit at h) in
      (([], after, ap₂ ◌∷◌ ((text_beq_iff part realms).0 hit) e, tt), nonempty)
  | inr miss ↦
      let ((before, rest, e, clear), nonempty) = find_realm-Names parts realm (rw miss at h) in
      ((part ∷ before, rest, ap (◌∷◌ part) e, (ne_of_text_beq part realms miss, clear)), nonempty)
]

find_realm_of_Names :
    (before after : List Text) (realm : Text)
    → All (λ part. part ≢ realms) before
    → realm ≢ []
    → find_realm (before ++ realms ∷ realm ∷ after) ≡ ok realm
unfolding find_realm
find_realm_of_Names [] after realm clear nonempty = elim (Bool-cases (realm == [])) [
  | inl empty ↦ absurd (nonempty ((text_beq_iff realm []).0 empty))
  | inr kept ↦ rw kept refl
]
find_realm_of_Names (part ∷ before) after realm (here, clear) nonempty =
    elim (Bool-cases (part == realms)) [
      | inl hit ↦ absurd (here ((text_beq_iff part realms).0 hit))
      | inr miss ↦ rw miss (find_realm_of_Names before after realm clear nonempty)
    ]

-- A realm is extracted exactly when the path has at least three segments as it stands, and, without
-- the slashes at its ends, has the segment "realms", the first of which the realm follows, and the
-- realm is not empty.
pub extract_realm_from_path_iff :
    (path realm : Text)
    → (extract_realm_from_path path ≡ ok realm)
      ↔ ((3 ≤ length (split b'/' path)) × Names realm (split b'/' (trim b'/' path)) × (realm ≢ []))
unfolding extract_realm_from_path
extract_realm_from_path_iff path realm = elim (Bool-cases (ltb (length (split b'/' path)) 3)) [
  | inl short ↦ rw short (λ h. cc, λ (long, _, _). absurd (ground arith))
  | inr enough ↦ rw enough (
    λ h.
        let (named, nonempty) = find_realm-Names (split b'/' (trim b'/' path)) realm h in
        (ground arith, named, nonempty),
    λ (_, (before, after, e, clear), nonempty).
        rw e (find_realm_of_Names before after realm clear nonempty),
  )
]
