-- ===== src/Memory/Newest.antt =====
-- The history: which entries it shows, and in which order.
use prolog_forge.Prelude.{
  ℕ, ◌≤◌, List, [], ◌∷◌, ◌++◌, Option, none, some, true, ==_iff, ◌≡◌, ◌↔◌, refl, ap, ◌∙◌, subst,
  inl, inr, Bool-cases, nat_eq, list_eq, Str, elem→In, In→elem, In, All, sort_by, insert_sorted,
  In-sort_by, In-sort_by_of, ok, arith,
}
use prolog_forge.Commit.Journal.{CommitEntry}
use prolog_forge.Memory.{
  HistoryFilter, HistoryItem, item_of, starts_with, fits_label, fits_tag, same_profile,
  fits_profile, matches, matching, newest_first, truncate, history_of, Decoder, DirEntry, holds,
  oldest_first, read_entries, list, history,
}

-- No item is older than one after it.
abbrev pub NewestFirst : List HistoryItem → Type 0
NewestFirst [] = Unit
NewestFirst (x ∷ xs) = All (λ y. y.timestamp_unix ≤ x.timestamp_unix) xs × NewestFirst xs

All-insert_sorted :
    (P : HistoryItem → Type 0) (x : HistoryItem) (ys : List HistoryItem)
    → P x
    → All P ys
    → All P (insert_sorted newest_first x ys)
unfolding insert_sorted
All-insert_sorted P x [] h k = (h, tt)
All-insert_sorted P x (y ∷ ys) h (k, ks) = elim (Bool-cases (newest_first x y)) [
  | inl newer ↦ rw (newer, insert_sorted) (h, (k, ks))
  | inr older ↦ rw (older, insert_sorted) (k, All-insert_sorted P x ys h ks)
]

All-weaken :
    (m n : ℕ) (ys : List HistoryItem)
    → m ≤ n
    → All (λ y. y.timestamp_unix ≤ m) ys
    → All (λ y. y.timestamp_unix ≤ n) ys
All-weaken m n [] le h = tt
All-weaken m n (y ∷ ys) le (h, hs) = (omega arith, All-weaken m n ys le hs)

insert_sorted-NewestFirst :
    (x : HistoryItem) (ys : List HistoryItem)
    → NewestFirst ys
    → NewestFirst (insert_sorted newest_first x ys)
unfolding insert_sorted
insert_sorted-NewestFirst x [] h = (tt, tt)
insert_sorted-NewestFirst x (y ∷ ys) (h, hs) = elim (Bool-cases (newest_first x y)) [
  | inl newer ↦
      let le : y.timestamp_unix ≤ x.timestamp_unix = ground (arith, newer) in
      rw (newer, insert_sorted)
        ((le, All-weaken y.timestamp_unix x.timestamp_unix ys le h), (h, hs))
  | inr older ↦
      let le : x.timestamp_unix ≤ y.timestamp_unix = ground (arith, older) in
      rw (older, insert_sorted)
        (
          All-insert_sorted (λ z. z.timestamp_unix ≤ y.timestamp_unix) x ys le h,
          insert_sorted-NewestFirst x ys hs,
        )
]

sort_by-NewestFirst : (xs : List HistoryItem) → NewestFirst (sort_by newest_first xs)
unfolding sort_by
sort_by-NewestFirst [] = tt
sort_by-NewestFirst (x ∷ xs) =
    insert_sorted-NewestFirst x (sort_by newest_first xs) (sort_by-NewestFirst xs)

-- What the filter asks of an entry, where it asks for it.
abbrev HasLabel : Option Str → CommitEntry → Type 0
HasLabel none e = Unit
HasLabel (some prefix) e = (rest : Str) × (e.label ≡ prefix ++ rest)

abbrev HasTag : Option Str → CommitEntry → Type 0
HasTag none e = Unit
HasTag (some tag) e = In tag e.ops_summary

abbrev HasProfile : Option Str → CommitEntry → Type 0
HasProfile none e = Unit
HasProfile (some profile) e = e.validation_profile ≡ some profile

abbrev pub IsAsked : HistoryFilter → CommitEntry → Type 0
IsAsked filter e =
    HasLabel filter.label_prefix e × HasTag filter.op_tag e × HasProfile filter.validation_profile e

starts_with-append :
    (s prefix : Str) → (starts_with s prefix ≡ true) ↔ ((rest : Str) × (s ≡ prefix ++ rest))
unfolding starts_with
starts_with-append s [] = ((λ h. (s, refl)), λ h. refl)
starts_with-append [] (b ∷ prefix) = ((λ h. cc), λ (rest, e). cc)
starts_with-append (c ∷ s) (b ∷ prefix) =
    let (to_rest, from_rest) = starts_with-append s prefix in
    (
      (λ h.
          let (rest, e) = to_rest (ground (arith, h)) in
          let same : b ≡ c = (==_iff b c).0 (ground (arith, h)) in (rest, cc)),
      λ (rest, e).
          let same : b ≡ c = cc in
          let tail : s ≡ prefix ++ rest = cc in
          ground (arith, ==_iff b c, same, from_rest (rest, tail)),
    )

fits_label-HasLabel : (o : Option Str) (e : CommitEntry) → (fits_label o e ≡ true) ↔ HasLabel o e
unfolding fits_label
fits_label-HasLabel none e = ((λ h. tt), λ h. refl)
fits_label-HasLabel (some prefix) e = starts_with-append e.label prefix

fits_tag-HasTag : (o : Option Str) (e : CommitEntry) → (fits_tag o e ≡ true) ↔ HasTag o e
unfolding fits_tag
fits_tag-HasTag none e = ((λ h. tt), λ h. refl)
fits_tag-HasTag (some tag) e =
    ((λ h. elem→In tag e.ops_summary h), λ h. In→elem tag e.ops_summary h)

same_profile-some :
    (o : Option Str) (profile : Str) → (same_profile o profile ≡ true) ↔ (o ≡ some profile)
unfolding same_profile
same_profile-some none profile = ((λ h. cc), λ h. cc)
same_profile-some (some p) profile =
    ((λ h. ap some ((==_iff p profile).0 h)), λ h. (==_iff p profile).1 (cc))

fits_profile-HasProfile :
    (o : Option Str) (e : CommitEntry) → (fits_profile o e ≡ true) ↔ HasProfile o e
unfolding fits_profile
fits_profile-HasProfile none e = ((λ h. tt), λ h. refl)
fits_profile-HasProfile (some profile) e = same_profile-some e.validation_profile profile

matches-IsAsked :
    (filter : HistoryFilter) (e : CommitEntry) → (matches filter e ≡ true) ↔ IsAsked filter e
unfolding matches
matches-IsAsked filter e =
    let (l, l') = fits_label-HasLabel filter.label_prefix e in
    let (t, t') = fits_tag-HasTag filter.op_tag e in
    let (p, p') = fits_profile-HasProfile filter.validation_profile e in
    (
      (λ h. (l (ground (arith, h)), t (ground (arith, h)), p (ground (arith, h)))),
      λ (hl, ht, hp). ground (arith, l' hl, t' ht, p' hp),
    )

-- An item is that of an entry which the filter asks for.
abbrev pub Shows : HistoryFilter → List CommitEntry → HistoryItem → Type 0
Shows filter entries item = (e : CommitEntry) × In e entries × IsAsked filter e × (item ≡ item_of e)

matching-Shows :
    (filter : HistoryFilter) (entries : List CommitEntry) (item : HistoryItem)
    → In item (matching filter entries) ↔ Shows filter entries item
unfolding matching
matching-Shows filter [] item = ((λ m. elim m [ ]), λ (e, there, asked, same). elim there [ ])
matching-Shows filter (x ∷ entries) item =
    let (sound, complete) = matching-Shows filter entries item in
    let (to_asked, from_asked) = matches-IsAsked filter x in
    elim (Bool-cases (matches filter x)) [
      | inl yes' ↦
          rw (yes', matching)
            (
              (λ m. elim m [
                | inl same ↦ (x, inl refl, to_asked yes', same)
                | inr later ↦
                    let (e, there, asked, same) = sound later in (e, inr there, asked, same)
              ]),
              λ (e, there, asked, same). elim there [
                | inl here ↦ inl (same ∙ ap item_of here)
                | inr later ↦ inr (complete (e, later, asked, same))
              ],
            )
      | inr no' ↦
          rw (no', matching)
            (
              (λ m. let (e, there, asked, same) = sound m in (e, inr there, asked, same)),
              λ (e, there, asked, same). elim there [
                | inl here ↦
                    let matched : matches filter x ≡ true =
                      from_asked (subst (IsAsked filter) here asked) in
                    absurd (ground (arith, matched, no'))
                | inr later ↦ complete (e, later, asked, same)
              ],
            )
    ]

-- Of a directory with the given contents and with no limit, the history shows exactly the readable
-- entries of the known schema whose label has the asked prefix, whose tags have the asked one and whose
-- profile is the asked one, and no item is older than one after it.
pub history-Shows :
    (decode : Decoder) (contents : List DirEntry) (filter : HistoryFilter)
    → filter.limit ≡ none
    → (items : List HistoryItem) × (history decode (holds contents) filter ≡ ok items)
      × NewestFirst items
      × ((item : HistoryItem) → In item items ↔ Shows filter (read_entries decode contents) item)
history-Shows decode contents filter unlimited =
    let read = read_entries decode contents in
    let items = matching filter (sort_by oldest_first read) in
    (
      sort_by newest_first items,
      unfold history list history_of truncate in
          ap (λ o. ok (truncate o (sort_by newest_first items))) unlimited,
      sort_by-NewestFirst items,
      λ item.
          let (sound, complete) = matching-Shows filter (sort_by oldest_first read) item in
          (
            (λ m.
                let (e, there, asked, same) = sound (In-sort_by newest_first item items m) in
                (e, In-sort_by oldest_first e read there, asked, same)),
            λ (e, there, asked, same).
                In-sort_by_of newest_first item items
                  (complete (e, In-sort_by_of oldest_first e read there, asked, same)),
          ),
    )
