-- ===== src/Json/Maps/Laws.antt =====
-- What a map finds after it was changed, and what decoding keeps.
use markets_service.Base.{
  Bool-cases, Option-cases, ◌∙◌, ◌≡◌, refl, false, Option, none, some, inl, inr, arith,
}
use markets_service.Json.{Json, null, bool, num, str, arr, obj, Members, end, member, find_member}
use markets_service.Json.Maps.{without, insert_member, put, any_of, map_of, as_text, find_text}
use markets_service.Text.{Text, text_eq}
use markets_service.Text.Laws.{text_eq_iff, text_eq_refl}

find_member-without_same : (k : Text) (ms : Members) → find_member k (without k ms) ≡ none
unfolding find_member without
find_member-without_same k end = refl
find_member-without_same k (member j v ms) = ground (arith, find_member-without_same k ms)

find_member-without_other :
    (j k : Text) (ms : Members)
    → text_eq k j ≡ false
    → find_member j (without k ms) ≡ find_member j ms
unfolding find_member without
find_member-without_other j k end h = refl
find_member-without_other j k (member i v ms) h = elim (Bool-cases (text_eq i k)) [
  | inl e ↦
      let same : text_eq i j ≡ false = rw ((text_eq_iff i k).0 e) h in
      ground (arith, find_member-without_other j k ms h)
  | inr e ↦ ground (arith, find_member-without_other j k ms h)
]

find_member-insert_member_same :
    (k : Text) (w : Json) (ms : Members)
    → find_member k ms ≡ none
    → find_member k (insert_member k w ms) ≡ some w
unfolding find_member insert_member
find_member-insert_member_same k w end h = rw (text_eq_refl k) refl
find_member-insert_member_same k w (member j v ms) h =
    ground (arith, text_eq_refl k, find_member-insert_member_same k w ms)

find_member-insert_member_other :
    (j k : Text) (w : Json) (ms : Members)
    → text_eq k j ≡ false
    → find_member j (insert_member k w ms) ≡ find_member j ms
unfolding find_member insert_member
find_member-insert_member_other j k w end h = rw h refl
find_member-insert_member_other j k w (member i v ms) h =
    ground (arith, find_member-insert_member_other j k w ms h)

-- An assignment sets its key.
pub find_member-put_same :
    (k : Text) (w : Json) (ms : Members) → find_member k (put k w ms) ≡ some w
unfolding put
find_member-put_same k w ms =
    find_member-insert_member_same k w (without k ms) (find_member-without_same k ms)

-- An assignment leaves the other keys.
pub find_member-put_other :
    (j k : Text) (w : Json) (ms : Members)
    → text_eq k j ≡ false
    → find_member j (put k w ms) ≡ find_member j ms
unfolding put
find_member-put_other j k w ms h =
    find_member-insert_member_other j k w (without k ms) h ∙ find_member-without_other j k ms h

pub find_text-put_same : (k s : Text) (ms : Members) → find_text k (put k (str s) ms) ≡ some s
unfolding find_text
find_text-put_same k s ms = rw (find_member-put_same k (str s) ms) (unfold as_text in refl)

pub find_text-put_other :
    (j k : Text) (w : Json) (ms : Members)
    → text_eq k j ≡ false
    → find_text j (put k w ms) ≡ find_text j ms
unfolding find_text
find_text-put_other j k w ms h = rw (find_member-put_other j k w ms h) refl

-- Decoding keeps what is a text, and makes no text of anything else.
as_text-any_of :
    (float : Text → Option Text) (v : Json) {w : Json}
    → any_of float v ≡ some w
    → as_text (some w) ≡ as_text (some v)
unfolding any_of as_text
as_text-any_of float null h = cc
as_text-any_of float (bool b) h = cc
as_text-any_of float (str s) h = cc
as_text-any_of float (num n) h = ground arith
as_text-any_of float (arr xs) h = ground arith
as_text-any_of float (obj ms) h = ground arith

-- The member that a key has, or else what the map had under it.
abbrev or_else {ℓ} : {A : Type ℓ} → Option A → Option A → Option A
or_else (some a) old = some a
or_else none old = old

-- Under a key, one more assignment counts as one more member.
find_text-assigned :
    (float : Text → Option Text) (k j : Text) (v w : Json) (ms old : Members)
    → any_of float v ≡ some w
    → as_text (or_else (find_member k ms) (find_member k (put j w old)))
      ≡ as_text (or_else (find_member k (member j v ms)) (find_member k old))
unfolding find_member
find_text-assigned float k j v w ms old e = elim (Option-cases (find_member k ms)) [
  | inr (later, q) ↦ rw q refl
  | inl q ↦ elim (Bool-cases (text_eq j k)) [
    | inl same ↦
        rw (q, same, (text_eq_iff j k).0 same, find_member-put_same k w old)
          (as_text-any_of float v e)
    | inr differs ↦ rw (q, differs, find_member-put_other k j w old differs) refl
  ]
]

find_text-map_of :
    (float : Text → Option Text) (k : Text) (ms old : Members) {out : Members}
    → map_of float ms old ≡ some out
    → find_text k out ≡ as_text (or_else (find_member k ms) (find_member k old))
find_text-map_of float k end old h = unfold map_of find_text find_member in cc
find_text-map_of float k (member j v ms) old {out} h = elim (Option-cases (any_of float v)) [
  | inl e ↦ absurd (unfold map_of in ground arith)
  | inr (w, e) ↦
      let h' : map_of float ms (put j w old) ≡ some out = unfold map_of in ground arith in
      find_text-map_of float k ms (put j w old) h' ∙ find_text-assigned float k j v w ms old e
]

-- A decoded object holds the texts of the object.
pub find_text-decoded :
    (float : Text → Option Text) (k : Text) (ms : Members) {out : Members}
    → map_of float ms end ≡ some out
    → find_text k out ≡ find_text k ms
unfolding find_text
find_text-decoded float k ms h =
    find_text-map_of float k ms end h ∙ (elim (Option-cases (find_member k ms)) [
      | inl q ↦ rw q (unfold find_member in refl)
      | inr (v, q) ↦ rw q refl
    ])
