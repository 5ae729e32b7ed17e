-- ===== src/Json/Maps/Sorted.antt =====
-- The keys of an encoded map ascend, so the struct that reads a key in small letters reads the member
-- of exactly that key: it comes after every key that differs by case.
use markets_service.Base.{
  Bool-cases, ◌≡◌, refl, true, false, Option, none, some, Option-cases, inl, inr, arith,
}
use markets_service.Json.{Json, str, Members, end, member, assign, read_members, find_member}
use markets_service.Json.Maps.{without, insert_member, put, any_of, map_of}
use markets_service.Text.{Text, text_eq, text_lt, to_lower}
use markets_service.Text.Laws.{
  text_eq_iff, text_lt_connex, text_lt_asym, text_lt_trans, text_lt-to_lower,
}

-- Every key of the map comes after this one.
unfoldable pub Above : Text → Members → Type 0
Above key end = Unit {0}
Above key (member k v ms) = (text_lt key k ≡ true) × Above key ms

unfoldable pub IsSorted : Members → Type 0
unfolding Above
IsSorted end = Unit {0}
IsSorted (member k v ms) = Above k ms × IsSorted ms

Above-trans : (i j : Text) (ms : Members) → text_lt i j ≡ true → Above j ms → Above i ms
unfolding Above
Above-trans i j end h a = tt
Above-trans i j (member k v ms) h a = (text_lt_trans i j k h a.0, Above-trans i j ms h a.1)

Above-without : (i k : Text) (ms : Members) → Above i ms → Above i (without k ms)
unfolding Above without
Above-without i k end a = tt
Above-without i k (member j v ms) a = elim (Bool-cases (text_eq j k)) [
  | inl e ↦ rw e (Above-without i k ms a.1)
  | inr e ↦ rw e (a.0, Above-without i k ms a.1)
]

IsSorted-without : (k : Text) (ms : Members) → IsSorted ms → IsSorted (without k ms)
unfolding IsSorted without
IsSorted-without k end h = tt
IsSorted-without k (member j v ms) h = elim (Bool-cases (text_eq j k)) [
  | inl e ↦ rw e (IsSorted-without k ms h.1)
  | inr e ↦ rw e (Above-without j k ms h.0, IsSorted-without k ms h.1)
]

-- No member has this key.
Misses : Text → Members → Type 0
Misses key end = Unit {0}
Misses key (member k v ms) = (text_eq k key ≡ false) × Misses key ms

Misses-without : (k : Text) (ms : Members) → Misses k (without k ms)
unfolding Misses without
Misses-without k end = tt
Misses-without k (member j v ms) = elim (Bool-cases (text_eq j k)) [
  | inl e ↦ rw e (Misses-without k ms)
  | inr e ↦ rw e (e, Misses-without k ms)
]

Above-insert_member :
    (i k : Text) (w : Json) (ms : Members)
    → text_lt i k ≡ true
    → Above i ms
    → Above i (insert_member k w ms)
unfolding Above insert_member
Above-insert_member i k w end h a = (h, tt)
Above-insert_member i k w (member j v ms) h a = elim (Bool-cases (text_lt j k)) [
  | inl e ↦ rw e (a.0, Above-insert_member i k w ms h a.1)
  | inr e ↦ rw e (h, a)
]

IsSorted-insert_member :
    (k : Text) (w : Json) (ms : Members)
    → Misses k ms
    → IsSorted ms
    → IsSorted (insert_member k w ms)
unfolding IsSorted insert_member Misses
IsSorted-insert_member k w end n h = (tt, tt)
IsSorted-insert_member k w (member j v ms) n h = elim (Bool-cases (text_lt j k)) [
  | inl e ↦ rw e (Above-insert_member j k w ms e h.0, IsSorted-insert_member k w ms n.1 h.1)
  | inr e ↦
      let before : text_lt k j ≡ true = elim (Bool-cases (text_lt k j)) [
        | inl q ↦ q
        | inr q ↦
            let same : text_eq j k ≡ true = (text_eq_iff j k).1 (text_lt_connex j k e q) in
            absurd (cc)
      ] in
      rw e ((before, Above-trans k j ms before h.0), h)
]

pub IsSorted-put : (k : Text) (w : Json) (ms : Members) → IsSorted ms → IsSorted (put k w ms)
unfolding put
IsSorted-put k w ms h =
    IsSorted-insert_member k w (without k ms) (Misses-without k ms) (IsSorted-without k ms h)

pub IsSorted-map_of :
    (float : Text → Option Text) (ms old : Members) {out : Members}
    → IsSorted old
    → map_of float ms old ≡ some out
    → IsSorted out
IsSorted-map_of float end old {out} s h = let e : old ≡ out = unfold map_of in cc in rw (← e) s
IsSorted-map_of float (member j v ms) old s h = elim (Option-cases (any_of float v)) [
  | inl e ↦ absurd (unfold map_of in ground arith)
  | inr (w, e) ↦
      IsSorted-map_of float ms (put j w old) (IsSorted-put j w old s)
        (unfold map_of in ground arith)
]

-- A key that is not in small letters comes before its small letters.
not_lowered : (tag k : Text) → text_lt tag k ≡ true → text_eq (to_lower k) tag ≡ false
not_lowered tag k h = elim (Bool-cases (text_eq (to_lower k) tag)) [
  | inr e ↦ e
  | inl e ↦
      let same : to_lower k ≡ tag = (text_eq_iff (to_lower k) tag).0 e in
      let below : text_lt (to_lower k) k ≡ true = rw same h in absurd (cc (text_lt-to_lower k))
]

read_members-Above :
    (tag : Text) (ms : Members) (old : Text) → Above tag ms → read_members tag ms old ≡ some old
unfolding read_members Above
read_members-Above tag end old a = refl
read_members-Above tag (member k v ms) old a =
    rw (not_lowered tag k a.0) (read_members-Above tag ms old a.1)

find_member-Above : (key : Text) (ms : Members) → Above key ms → find_member key ms ≡ none
unfolding find_member Above
find_member-Above key end a = refl
find_member-Above key (member k v ms) a =
    let apart : text_eq k key ≡ false = elim (Bool-cases (text_eq k key)) [
      | inr e ↦ e
      | inl e ↦
          let same : k ≡ key = (text_eq_iff k key).0 e in
          let ahead : text_lt key k ≡ true = a.0 in absurd (cc (text_lt_asym key k ahead))
    ] in
    rw (find_member-Above key ms a.1, apart) refl

-- At the key itself, the last one that is read.
read_members-same :
    (tag k : Text) (v : Json) (ms : Members) (old : Text) {s : Text}
    → to_lower tag ≡ tag
    → k ≡ tag
    → Above k ms
    → find_member tag (member k v ms) ≡ some (str s)
    → read_members tag (member k v ms) old ≡ some s
unfolding read_members
read_members-same tag k v ms old {s} small same a f =
    rw (lowered, value) (read_members-Above tag ms s above)
  where
    above : Above tag ms
    above = rw (← same) a

    equal : text_eq k tag ≡ true
    equal = (text_eq_iff k tag).1 same

    lowered : text_eq (to_lower k) tag ≡ true
    lowered = (text_eq_iff (to_lower k) tag).1 (rw same small)

    value : v ≡ str s
    value = unfold find_member in ground (arith, find_member-Above tag ms above)

-- A field in small letters is read from the member of that key.
pub read_members-IsSorted :
    (tag : Text) (ms : Members) (old : Text) {s t : Text}
    → to_lower tag ≡ tag
    → IsSorted ms
    → find_member tag ms ≡ some (str s)
    → read_members tag ms old ≡ some t
    → t ≡ s
unfolding IsSorted
read_members-IsSorted tag end old small o f r = absurd (unfold find_member in cc)
read_members-IsSorted tag (member k v ms) old {s} {t} small o f r =
    elim (Bool-cases (text_eq k tag)) [
      | inl e ↦
          let read = read_members-same tag k v ms old small ((text_eq_iff k tag).0 e) o.0 f in cc
      | inr e ↦
          let below : find_member tag ms ≡ some (str s) = unfold find_member in ground arith in
          elim (Bool-cases (text_eq (to_lower k) tag)) [
            | inl q ↦ elim (Option-cases (assign v old)) [
              | inl n ↦ absurd (unfold read_members in ground arith)
              | inr (new, n) ↦
                  read_members-IsSorted tag ms new small o.1 below
                    (unfold read_members in ground arith)
            ]
            | inr q ↦
                read_members-IsSorted tag ms old small o.1 below
                  (unfold read_members in ground arith)
          ]
    ]

pub IsSorted-end : IsSorted end
unfolding IsSorted
IsSorted-end = tt
