-- ===== src/Settings/Globals/Lasting.antt =====
-- How long a global instance lasts.
use go_utilities.Base.{
  ◌≡◌, refl, sym, ◌∙◌, ap, ◌↔◌, ◌⊎◌, inl, inr, true, false, List, [], ◌∷◌, Option, none, some,
  if◌then◌else◌, Bool-cases,
}
use go_utilities.Settings.Globals.{
  Global, fresh, reset, get_global, set_global, Use, gets, sets, resets, use_all,
}

module _ {P : Type 0} where
  set-get_iff :
      (p : P) (made : Option P) (g : Global P)
      → ((get_global made (set_global (some p) g)).1 ≡ some p) ↔ ((g.done ≡ true) ⊎ (made ≡ some p))
  unfolding get_global set_global
  set-get_iff p made g = elim (Bool-cases g.done) [
    | inl once ↦ (λ h. inl once, λ h. rw once refl)
    | inr first ↦ (λ h. inr (rw first at h), λ h. rw first (is_made first h))
  ]
    where
      is_made : g.done ≡ false → (g.done ≡ true) ⊎ (made ≡ some p) → made ≡ some p
      is_made first (inl once) = cc
      is_made first (inr same) = same

  -- No use in the history is a reset.
  pub data NoReset : List (Use P) → Type 0 where
    nothing : NoReset []
    after_get : {made : Option P} {us : List (Use P)} → NoReset us → NoReset (gets made ∷ us)
    after_set : {p : Option P} {us : List (Use P)} → NoReset us → NoReset (sets p ∷ us)

  -- Some use in the history is a get that no reset follows.
  pub data GotSince : List (Use P) → Type 0 where
    got : {made : Option P} {us : List (Use P)} → NoReset us → GotSince (gets made ∷ us)
    later : {u : Use P} {us : List (Use P)} → GotSince us → GotSince (u ∷ us)

  get_global-done :
      (made : Option P) (g : Global P) → g.done ≡ true → get_global made g ≡ (g, g.instance_of)
  unfolding get_global
  get_global-done made g once =
      ap (λ b. if b then (g, g.instance_of) else (record { instance_of = made; done = true }, made))
        once

  get_global-marks : (made : Option P) (g : Global P) → (get_global made g).0.done ≡ true
  unfolding get_global
  get_global-marks made g = elim (Bool-cases g.done) [
    | inl once ↦ ap (λ q. q.0.done) (get_global-done made g once) ∙ once
    | inr first ↦ rw first refl
  ]

  set_global-done : (p : Option P) (g : Global P) → (set_global p g).done ≡ g.done
  unfolding set_global
  set_global-done none g = refl
  set_global-done (some p) g = refl

  -- Whether the `Once` is done after a history, by what the history has and whether it was done.
  abbrev pub Done : List (Use P) → Global P → Type 0
  Done us g = GotSince us ⊎ (NoReset us × (g.done ≡ true))

  use_all-marks : (us : List (Use P)) (g : Global P) → Done us g → (use_all us g).done ≡ true
  unfolding use_all
  use_all-marks [] g (inl s) = elim s [ ]
  use_all-marks [] g (inr (n, once)) = once
  use_all-marks (gets made ∷ us) g (inl (got n)) =
      use_all-marks us _ (inr (n, get_global-marks made g))
  use_all-marks (u ∷ us) g (inl (later s)) = use_all-marks us _ (inl s)
  use_all-marks (gets made ∷ us) g (inr (after_get n, once)) =
      use_all-marks us _ (inr (n, get_global-marks made g))
  use_all-marks (sets p ∷ us) g (inr (after_set n, once)) =
      use_all-marks us _ (inr (n, set_global-done p g ∙ once))
  use_all-marks (resets ∷ us) g (inr (n, once)) = elim n [ ]

  Done-use_all : (us : List (Use P)) (g : Global P) → (use_all us g).done ≡ true → Done us g
  unfolding use_all reset
  Done-use_all [] g h = inr (nothing, h)
  Done-use_all (gets made ∷ us) g h = elim (Done-use_all us _ h) [
    | inl s ↦ inl (later s)
    | inr (n, once) ↦ inl (got n)
  ]
  Done-use_all (sets p ∷ us) g h = elim (Done-use_all us _ h) [
    | inl s ↦ inl (later s)
    | inr (n, once) ↦ inr (after_set n, (sym (set_global-done p g)) ∙ once)
  ]
  Done-use_all (resets ∷ us) g h = elim (Done-use_all us _ h) [
    | inl s ↦ inl (later s)
    | inr (n, once) ↦ absurd (apart once)
  ]
    where
      apart : false ≡ true → ⊥
      apart e = cc

  -- After any history of gets, sets and resets from the start of the program on, an instance that is
  -- set is what the next get gives exactly when the history has a get that no reset follows, or when
  -- the next get makes that very instance: the first get overwrites what was set.
  pub get_global-set_global_iff :
      (us : List (Use P)) (p : P) (made : Option P)
      → ((get_global made (set_global (some p) (use_all us fresh))).1 ≡ some p)
        ↔ (GotSince us ⊎ (made ≡ some p))
  get_global-set_global_iff us p made = (given, gives)
    where
      from_start : Done us fresh → GotSince us
      from_start (inl s) = s
      from_start (inr (n, once)) = cc

      given :
          (get_global made (set_global (some p) (use_all us fresh))).1 ≡ some p
          → GotSince us ⊎ (made ≡ some p)
      given h = elim ((set-get_iff p made (use_all us fresh)).0 h) [
        | inl once ↦ inl (from_start (Done-use_all us fresh once))
        | inr same ↦ inr same
      ]

      gives :
          GotSince us ⊎ (made ≡ some p)
          → (get_global made (set_global (some p) (use_all us fresh))).1 ≡ some p
      gives (inl s) =
          (set-get_iff p made (use_all us fresh)).1 (inl (use_all-marks us fresh (inl s)))
      gives (inr same) = (set-get_iff p made (use_all us fresh)).1 (inr same)

  -- No use in the list is a reset, or a set of an instance.
  pub data OnlyGets : List (Use P) → Type 0 where
    no_use : OnlyGets []
    one_get : {made : Option P} {us : List (Use P)} → OnlyGets us → OnlyGets (gets made ∷ us)
    nil_set : {us : List (Use P)} → OnlyGets us → OnlyGets (sets none ∷ us)

  use_all-lasts :
      (us : List (Use P)) (g : Global P) → OnlyGets us → g.done ≡ true → use_all us g ≡ g
  unfolding use_all get_global set_global
  use_all-lasts [] g no_use once = refl
  use_all-lasts (gets made ∷ us) g (one_get only) once =
      ap (λ q. use_all us q.0) (get_global-done made g once) ∙ use_all-lasts us g only once
  use_all-lasts (sets none ∷ us) g (nil_set only) once = use_all-lasts us g only once
  use_all-lasts (sets (some p) ∷ us) g only once = elim only [ ]
  use_all-lasts (resets ∷ us) g only once = elim only [ ]

  -- After a first get, every later one gives the same instance, however many gets and sets of nil
  -- come between, and whatever each of them would have made.
  pub get_global-again :
      (made other : Option P) (us : List (Use P)) (g : Global P)
      → OnlyGets us
      → (get_global other (use_all us (get_global made g).0)).1 ≡ (get_global made g).1
  unfolding use_all get_global
  get_global-again made other us g only = elim (Bool-cases g.done) [
    | inl once ↦
        ap (λ q. (get_global other (use_all us q.0)).1) (get_global-done made g once)
        ∙ ap (λ q. (get_global other q).1) (use_all-lasts us g only once)
        ∙ ap (λ q. q.1) (get_global-done other g once)
        ∙ sym (ap (λ q. q.1) (get_global-done made g once))
    | inr first ↦
        rw first (rw (use_all-lasts us (record { instance_of = made; done = true }) only refl) refl)
  ]
