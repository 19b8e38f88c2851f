-- ===== src/Indexer/Client/Cached.antt =====
-- indexer/client.go: what the cache of search results answers.
use mediarr.Common.{
  Bool-cases, nat_eq, string_eq, lookup, ◌-◌, ◌^◌, String, ◌≡◌, refl, sym, ap, ◌∙◌, inl, inr, true,
  none, some, List, [], ◌∷◌, arith, HasUniqueKeys,
}
use mediarr.Common.Int.{pos, negsuc, ◌+ℤ◌, ◌-ℤ◌, ◌≤ℤ◌, ltb_ℤ, int64, -ℤ_parts, int_laws}
use mathlib.Core.Path.{subst}
use mediarr.Common.Time
use mediarr.Common.Time.{Time, Duration}
use mediarr.Indexer.Client.{
  CacheEntry, SearchCache, is_expired, valid_entry, get, drop_before, cutoff_of, clean_old,
}

-- The greatest age of a cache: not negative, and below the longest Duration.
abbrev pub IsAge : Duration → Type 0
IsAge d = (pos 0 ≤ℤ d) × (ltb_ℤ d (pos (2 ^ 63 - 1)) ≡ true)

cutoff_of_lem :
    (max_age : Duration) (now : Time) → IsAge max_age → cutoff_of max_age now ≡ now -ℤ max_age
unfolding ◌+ℤ◌ ◌-ℤ◌ int64
cutoff_of_lem (pos d) now (h, k) = grind int_laws
cutoff_of_lem (negsuc d) now (h, k) = absurd (omega (arith, h))

old_is_expired :
    (max_age : Duration) (now later : Time) (entry : CacheEntry)
    → IsAge max_age
    → now ≤ℤ later
    → ltb_ℤ entry.time (now -ℤ max_age) ≡ true
    → is_expired max_age later entry ≡ true
unfolding Time.sub
old_is_expired max_age now later entry (h, k) l e =
    grind (int_laws, -ℤ_parts now max_age, -ℤ_parts later entry.time)

valid_entry_expired :
    (max_age : Duration) (later : Time) (entry : CacheEntry)
    → is_expired max_age later entry ≡ true
    → valid_entry max_age later (some entry) ≡ none
unfolding valid_entry
valid_entry_expired max_age later entry e = rw e refl

drop_before_lem :
    (cutoff later : Time) (max_age : Duration) (key : String) (entries : List (String × CacheEntry))
    → ((entry : CacheEntry)
        → Time.is_before entry.time cutoff ≡ true
        → is_expired max_age later entry ≡ true)
    → HasUniqueKeys entries
    → valid_entry max_age later (lookup key (drop_before cutoff entries))
      ≡ valid_entry max_age later (lookup key entries)
unfolding drop_before lookup
drop_before_lem cutoff later max_age key [] old u = refl
drop_before_lem cutoff later max_age key ((k, entry) ∷ entries) old (absent, u) =
    let rest = drop_before_lem cutoff later max_age key entries old u in
    elim (Bool-cases (Time.is_before entry.time cutoff)) [
      | inl early ↦ elim (Bool-cases (string_eq.beq k key)) [
        | inl same ↦
            let p : key ≡ k = sym ((string_eq.beq_iff k key).0 same) in
            rw (early, same)
              (rest
                ∙ ap (valid_entry max_age later) (ap (λ j. lookup j entries) p ∙ absent)
                ∙ unfold valid_entry in
                  refl ∙ sym (valid_entry_expired max_age later entry (old entry early)))
        | inr other ↦ rw (early, other) rest
      ]
      | inr late ↦ elim (Bool-cases (string_eq.beq k key)) [
        | inl same ↦ rw (late, same) refl
        | inr other ↦ rw (late, other) rest
      ]
    ]

-- A cache whose greatest age is not negative and below the longest Duration: from the moment of a
-- `CleanOld` on, every `Get` gives what it would have given without it.
pub get-clean_old :
    (sc : SearchCache) (key : String) (now later : Time)
    → IsAge sc.max_age
    → HasUniqueKeys sc.entries
    → now ≤ℤ later
    → get (clean_old sc now) key later ≡ get sc key later
unfolding get clean_old
get-clean_old sc key now later age u l =
    let cutoff = cutoff_of sc.max_age now in
    drop_before_lem cutoff later sc.max_age key sc.entries
      (λ entry e.
        old_is_expired sc.max_age now later entry age l
          (subst (λ t. ltb_ℤ entry.time t ≡ true) (cutoff_of_lem sc.max_age now age) e))
      u
