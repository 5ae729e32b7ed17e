-- ===== src/Json/Column.antt =====
-- A `jsonb` column: an object stored in it and read back may have its members in another order and
-- each of its keys once. What a struct reads from such a column.
use markets_service.Base.{
  ℕ, ◌+◌, ◌≤◌, ◌≡◌, refl, sym, ◌∙◌, ap, Bool-cases, true, [], Option, Option-cases, none, some, inl,
  inr, arith, if◌then◌else◌, ◌==◌,
}
use markets_service.Json.{
  Json, null, bool, num, str, arr, obj, Members, end, member, RawMessage, assign, read_members,
  text_field, find_member,
}
use markets_service.Text.{Text, text_eq, to_lower}
use markets_service.Text.Laws.{text_eq_iff, text_eq_refl}

-- How many members have this key, up to case.
unfoldable pub times : Text → Members → ℕ
times tag end = 0
times tag (member k v ms) = (if text_eq (to_lower k) tag then 1 else 0) + times tag ms

-- The same of a message, which has no members where it is no object.
unfoldable pub times_named : Text → RawMessage → ℕ
unfolding times
times_named tag (some (obj ms)) = times tag ms
times_named tag _ = 0

-- What a `jsonb` column keeps of an object: the last value of a key, where it is a text or null, and
-- no key oftener than it was there.
pub record KeepsMembers (ms ms' : Members) : Type 0 where
  pub last_value :
      (key : Text) (v : Json) (s : Text)
      → find_member key ms ≡ some v
      → assign v [] ≡ some s
      → find_member key ms' ≡ some v
  pub no_more : (tag : Text) → times tag ms' ≤ times tag ms

-- A column of type `jsonb` gives an object back as an object.
pub record IsJsonb (jsonb : RawMessage → Option RawMessage) : Type 0 where
  pub object :
      (ms : Members) (r : RawMessage)
      → jsonb (some (obj ms)) ≡ some r
      → (ms' : Members) × (r ≡ some (obj ms')) × KeepsMembers ms ms'

read_none :
    (tag : Text) (ms : Members) (old : Text) → times tag ms ≡ 0 → read_members tag ms old ≡ some old
unfolding times read_members
read_none tag end old h = refl
read_none tag (member k v ms) old h = elim (Bool-cases (text_eq (to_lower k) tag)) [
  | inl e ↦ absurd (ground (arith, h, e))
  | inr e ↦ rw e (read_none tag ms old (ground (arith, h, e)))
]

find_none :
    (tag k : Text) (ms : Members) → to_lower k ≡ tag → times tag ms ≡ 0 → find_member k ms ≡ none
unfolding times find_member
find_none tag k end named h = refl
find_none tag k (member q v ms) named h = elim (Bool-cases (text_eq q k)) [
  | inl same ↦
      let alike : to_lower q ≡ tag = ap to_lower ((text_eq_iff q k).0 same) ∙ named in
      let e : text_eq (to_lower q) tag ≡ true = (text_eq_iff (to_lower q) tag).1 alike in
      absurd (ground (arith, h, e))
  | inr apart ↦ let rest = find_none tag k ms named (ground (arith, h)) in rw (rest, apart) refl
]

-- The member itself, where it is the only one up to case.
read_found :
    (tag k : Text) (ms : Members) (v : Json) (old new : Text)
    → to_lower k ≡ tag
    → times tag ms ≡ 1
    → find_member k ms ≡ some v
    → assign v old ≡ some new
    → read_members tag ms old ≡ some new
unfolding times read_members find_member
read_found tag k end v old new named one found put = absurd (cc)
read_found tag k (member q w ms) v old new named one found put =
    elim (Bool-cases (text_eq (to_lower q) tag)) [
      | inl e ↦
          let left : times tag ms ≡ 0 = ground (arith, one, e) in
          let rest = find_none tag k ms named left in
          let same : w ≡ v = elim (Bool-cases (text_eq q k)) [
            | inl t ↦ cc (rw (rest, t) at found)
            | inr f ↦ absurd (cc (rw (rest, f) at found))
          ] in
          let given : assign w old ≡ some new = rw same put in
          rw (e, given) (read_none tag ms new left)
      | inr e ↦
          let later : find_member k ms ≡ some v = elim (Option-cases (find_member k ms)) [
            | inr (x, there) ↦ there ∙ rw there at found
            | inl absent ↦ elim (Bool-cases (text_eq q k)) [
              | inl t ↦
                  let alike =
                    (text_eq_iff (to_lower q) tag).1
                      (ap to_lower ((text_eq_iff q k).0 t) ∙ named) in
                  absurd (cc (sym e ∙ alike))
              | inr f ↦ absurd (cc (rw (absent, f) at found))
            ]
          ] in
          rw e (read_found tag k ms v old new named (ground (arith, one, e)) later put)
    ]

-- Which member the struct reads.
read_source :
    (tag : Text) (ms : Members) (s : Text)
    → times tag ms ≡ 1
    → read_members tag ms [] ≡ some s
    → (k : Text) × (v : Json) × (to_lower k ≡ tag)
      × (find_member k ms ≡ some v)
      × (assign v [] ≡ some s)
unfolding times read_members find_member
read_source tag end s one h = absurd (cc)
read_source tag (member q w ms) s one h = elim (Bool-cases (text_eq (to_lower q) tag)) [
  | inl e ↦
      let left : times tag ms ≡ 0 = ground (arith, one, e) in
      let named = (text_eq_iff (to_lower q) tag).0 e in
      let rest = find_none tag q ms named left in
      elim (Option-cases (assign w [])) [
        | inl bad ↦ absurd (cc (rw (e, bad) at h))
        | inr (new, put) ↦
            let same : new ≡ s = cc (sym (read_none tag ms new left) ∙ rw (e, put) at h) in
            (q, w, named, rw (rest, text_eq_refl q) refl, rw (← same) put)
      ]
  | inr e ↦
      let (k, v, named, found, put) = read_source tag ms s (ground (arith, one, e)) (rw e at h) in
      (k, v, named, rw found refl, put)
]

still_once :
    (tag k : Text) (ms : Members) (v : Json)
    → to_lower k ≡ tag
    → find_member k ms ≡ some v
    → times tag ms ≤ 1
    → times tag ms ≡ 1
still_once tag k ms v named found most = elim (Bool-cases (times tag ms == 0)) [
  | inl e ↦ absurd (cc (sym (find_none tag k ms named (ground (arith, e))) ∙ found))
  | inr e ↦ ground (arith, e, most)
]

read_kept :
    (tag : Text) (ms ms' : Members) (s : Text)
    → KeepsMembers ms ms'
    → times tag ms ≡ 1
    → read_members tag ms [] ≡ some s
    → read_members tag ms' [] ≡ some s
read_kept tag ms ms' s keeps one h =
    let (k, v, named, found, put) = read_source tag ms s one h in
    let there = keeps.last_value k v s found put in
    let most : times tag ms' ≤ 1 = ground (arith, keeps.no_more tag, one) in
    read_found tag k ms' v [] s named (still_once tag k ms' v named there most) there put

-- A field whose key is there once, up to case, is read from the column as it was before.
pub text_field-jsonb :
    (jsonb : RawMessage → Option RawMessage) (tag : Text) (raw stored : RawMessage) (s : Text)
    → IsJsonb jsonb
    → times_named tag raw ≡ 1
    → jsonb raw ≡ some stored
    → text_field tag raw ≡ some s
    → text_field tag stored ≡ some s
unfolding text_field times_named
text_field-jsonb jsonb tag none stored s law one kept h = absurd (cc one)
text_field-jsonb jsonb tag (some null) stored s law one kept h = absurd (cc one)
text_field-jsonb jsonb tag (some (bool b)) stored s law one kept h = absurd (cc one)
text_field-jsonb jsonb tag (some (num n)) stored s law one kept h = absurd (cc one)
text_field-jsonb jsonb tag (some (str t)) stored s law one kept h = absurd (cc one)
text_field-jsonb jsonb tag (some (arr xs)) stored s law one kept h = absurd (cc one)
text_field-jsonb jsonb tag (some (obj ms)) stored s law one kept h =
    let (ms', same, keeps) = law.object ms stored kept in
    rw same (read_kept tag ms ms' s keeps one h)
