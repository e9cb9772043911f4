-- ===== src/HttpClient/Download/Place.antt =====
-- Where `DownloadToFile` writes, by the name that the server gives.
use go_utilities.Base.{
  String, Option, none, some, if◌then◌else◌, ℕ, ◌≡◌, ◌≢◌, refl, sym, ◌∙◌, ap, Bool, true, false,
  List, [], ◌∷◌, ◌++◌, arith, ◌==◌, nat_eq, Bool-cases, inl, inr,
}
use go_utilities.Base.Text.{Text, codes, text_eq, text_beq_iff, split, onto_first}
use go_utilities.Base.Text.Laws.{Lacks, split_of_Lacks, split-append}
use mathlib.Core.List.{reverse, reverse-cons, reverse-append, reverse-reverse}
use go_utilities.Base.Dict.{Dict}
use go_utilities.Base.Result.{err}
use go_utilities.HttpClient.Request.{HttpLibrary, HttpResponse}
use go_utilities.HttpClient.Download.{
  clean_step, clean_segments, clean, up, is_rooted, print_path, join_path, Files, file_name,
  header_value, copied, details, store, create_file_failed,
}

-- The name of a file in a directory: not empty, no slash, and not "." or "..".
pub record IsPlain (name : Text) : Type 0 where
  pub no_slash : Lacks b'/' name
  pub filled : name ≢ []
  pub not_here : name ≢ codes "."
  pub not_up : name ≢ codes ".."

-- The segments of the directory as it is after cleaning.
abbrev pub segments : Text → List Text
segments dir = clean_segments (is_rooted dir) (split b'/' dir) []

abbrev NotNil : List Text → Type 0
NotNil xs = xs ≢ []

split-ne_nil : (s : Text) → NotNil (split b'/' s)
unfolding split
split-ne_nil [] = cc
split-ne_nil (c ∷ s) = ground (arith, split-ne_nil s)

onto_first-append :
    (c : ℕ) (xs ys : List Text) → NotNil xs → onto_first c (xs ++ ys) ≡ onto_first c xs ++ ys
onto_first-append c [] ys h = absurd (h refl)
onto_first-append c (x ∷ xs) ys h = refl

split-slash : (a b : Text) → split b'/' (a ++ b'/' ∷ b) ≡ split b'/' a ++ split b'/' b
unfolding split
split-slash [] b = refl
split-slash (c ∷ a) b = elim (Bool-cases (c == b'/')) [
  | inl h ↦ rw h (rw (split-slash a b) refl)
  | inr h ↦ rw h (rw (split-slash a b) (onto_first-append c (split b'/' a) _ (split-ne_nil a)))
]

-- What is kept after some segments, the last first.
kept_after : Bool → List Text → List Text → List Text
kept_after rooted [] kept = kept
kept_after rooted (s ∷ segs) kept = kept_after rooted segs (clean_step rooted s kept)

clean_segments-append :
    (rooted : Bool) (xs ys kept : List Text)
    → clean_segments rooted (xs ++ ys) kept ≡ clean_segments rooted ys (kept_after rooted xs kept)
unfolding kept_after clean_segments
clean_segments-append rooted [] ys kept = refl
clean_segments-append rooted (x ∷ xs) ys kept =
    clean_segments-append rooted xs ys (clean_step rooted x kept)

clean_segments-reverse :
    (rooted : Bool) (xs kept : List Text)
    → clean_segments rooted xs kept ≡ reverse (kept_after rooted xs kept)
unfolding kept_after clean_segments
clean_segments-reverse rooted [] kept = refl
clean_segments-reverse rooted (x ∷ xs) kept =
    clean_segments-reverse rooted xs (clean_step rooted x kept)

differ : (s t : Text) → s ≢ t → (s == t) ≡ false
differ s t h = elim (Bool-cases (s == t)) [
  | inl e ↦ absurd (h ((text_beq_iff s t).0 e))
  | inr n ↦ n
]

clean_step-plain :
    (rooted : Bool) (name : Text) (kept : List Text)
    → IsPlain name
    → clean_step rooted name kept ≡ name ∷ kept
clean_step-plain rooted name kept p =
    rw
      (
        differ name [] p.filled,
        differ name (codes ".") p.not_here,
        differ name (codes "..") p.not_up,
      )
      refl

rooted-append : (dir s : Text) → dir ≢ [] → is_rooted (dir ++ s) ≡ is_rooted dir
rooted-append [] s h = absurd (h refl)
rooted-append (c ∷ dir) s h = refl

-- The cleaned path of the segments of a directory and some more.
join_path-segments :
    (dir name : Text)
    → dir ≢ []
    → name ≢ []
    → join_path dir name
      ≡ print_path (is_rooted dir) (
          clean_segments
            (is_rooted dir)
            (split b'/' name)
            (kept_after (is_rooted dir) (split b'/' dir) []))
unfolding join_path clean
join_path-segments dir name d n =
    rw (differ name [] n, differ dir [] d, rooted-append dir (b'/' ∷ name) d, split-slash dir name)
      (ap (print_path (is_rooted dir))
        (clean_segments-append (is_rooted dir) (split b'/' dir) _ []))

-- A file whose name from the server is plain is written in the output directory under that name.
pub join_path-plain :
    (dir name : Text)
    → dir ≢ []
    → IsPlain name
    → join_path dir name ≡ print_path (is_rooted dir) (segments dir ++ name ∷ [])
unfolding clean_segments
join_path-plain dir name d p =
    let r = is_rooted dir in
    let kept = kept_after r (split b'/' dir) [] in
    join_path-segments dir name d p.filled
    ∙ ap (print_path r) (
        rw (split_of_Lacks b'/' name p.no_slash, clean_step-plain r name kept p)
          (reverse-cons name kept
            ∙ ap (λ s. s ++ name ∷ []) (sym (clean_segments-reverse r (split b'/' dir) []))))

up-last :
    (rooted : Bool) (d : Text) (kept : List Text) → d ≢ codes ".." → up rooted (d ∷ kept) ≡ kept
up-last true d kept h = rw (differ d (codes "..") h) refl
up-last false d kept h = rw (differ d (codes "..") h) refl

-- Where the server gives the name "../x", with a plain x, the file is written as x beside the
-- output directory, outside of it.
pub join_path-escapes :
    (dir : Text) (above : List Text) (last name : Text)
    → dir ≢ []
    → segments dir ≡ above ++ last ∷ []
    → last ≢ codes ".."
    → IsPlain name
    → join_path dir (codes "../" ++ name) ≡ print_path (is_rooted dir) (above ++ name ∷ [])
unfolding clean_segments
join_path-escapes dir above last name d s l p =
    let r = is_rooted dir in
    let kept = kept_after r (split b'/' dir) [] in
    let same : kept ≡ last ∷ reverse above =
      sym (reverse-reverse kept)
      ∙ ap reverse (sym (clean_segments-reverse r (split b'/' dir) []) ∙ s)
      ∙ reverse-append above (last ∷ []) in
    join_path-segments dir (codes "../" ++ name) d (λ e. cc)
    ∙ ap (print_path r) (
        rw
          (
            split-append b'/' (codes "..") name (omega arith, (omega arith, tt)),
            split_of_Lacks b'/' name p.no_slash,
            same,
            up-last r last (reverse above) l,
            clean_step-plain r name (reverse above) p,
          )
          (reverse-cons name (reverse above) ∙ ap (λ t. t ++ name ∷ []) (reverse-reverse above)))

-- The file that a place is given, where it can be created.
abbrev pub written_at : Files → Text → HttpResponse → Option (Text × Text)
written_at disk place r = if disk.create_ok place then some (place, (disk.copy r.body).0) else none

copied-file :
    (x : HttpLibrary) (disk : Files) (place : Text) (o : Text × Bool) (found : Dict Text)
    → (copied x disk place o found).file ≡ some (place, o.0)
copied-file x disk place (text, true) found = refl
copied-file x disk place (text, false) found = refl

-- Where the output directory is not empty and its cleaned path has a last segment, which is not "..",
-- and a server answers a download with the file name "../x", with a plain x, the answer is written, if
-- the file can be created, at that path with x in place of its last segment, so not inside the output
-- directory.
pub store-escapes :
    (x : HttpLibrary) (disk : Files) (default dir : Text) (keys : List String) (r : HttpResponse)
    (above : List Text) (last name : Text)
    → dir ≢ []
    → segments dir ≡ above ++ last ∷ []
    → last ≢ codes ".."
    → IsPlain name
    → file_name default (header_value x disk r.headers "Content-Disposition") ≡ codes "../" ++ name
    → (store x disk default dir keys r).file
      ≡ written_at disk (print_path (is_rooted dir) (above ++ name ∷ [])) r
unfolding store
store-escapes x disk default dir keys r above last name d s l p given =
    rw (given, join_path-escapes dir above last name d s l p)
      (at (print_path (is_rooted dir) (above ++ name ∷ [])))
  where
    at :
        (place : Text)
        → (if disk.create_ok place
            then copied x disk place (disk.copy r.body) (details x disk r.headers keys [])
            else record { file = none; response = err create_file_failed }).file
          ≡ written_at disk place r
    at place = elim (Bool-cases (disk.create_ok place)) [
      | inl good ↦ rw good (copied-file x disk place (disk.copy r.body) _)
      | inr bad ↦ rw bad refl
    ]
