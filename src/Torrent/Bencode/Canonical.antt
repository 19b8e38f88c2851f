-- ===== src/Torrent/Bencode/Canonical.antt =====
-- download/torrent/bencode/decode.go: the values that come back, and the order of their keys.
use mathlib.Core.Path.{subst}
use mediarr.Common.{
  Bool-cases, nat_eq, string_eq, lookup, ◌≡◌, refl, sym, ap, ◌∙◌, ◌≢◌, inl, inr, true, false,
  Option, none, some, List, [], ◌∷◌, HasUniqueKeys,
}
use mediarr.Common.Int.{IsInt64}
use mediarr.Common.Bytes.{
  Bytes, eq_bytes, eq_bytes_iff, bytes_eq, greater_bytes, greater_bytes-IsOrder,
}
use mediarr.Common.ExchangeSort.{IsSorted, LeAll, exchange_sort_sorted}
use mediarr.Torrent.Bencode.{
  Value, string, int, list, dict, unsupported, Values, nil, cons, Entries, end, field, entries,
  encode_string, enclose, join, keys, sorted_keys, encode_fields, encode_dict, encode,
  encode_entries,
}
use mediarr.Torrent.Bencode.Decode.{Found}

-- The key stands before every key of the entries.
abbrev pub IsBefore : Bytes → Entries → Type 0
IsBefore k end = Unit
IsBefore k (field j v es) = (greater_bytes j k ≡ true) × IsBefore k es

-- A value that `Decode` can give back: integers of 64 bits, and dictionaries whose keys are listed in
-- the order of the encoding, each once.
unfoldable mutual
  pub IsCanonical : Value → Type 0
  IsCanonical (string s) = Unit
  IsCanonical (int i) = IsInt64 i
  IsCanonical (list vs) = AllCanonical vs
  IsCanonical (dict es) = AreCanonical es
  IsCanonical unsupported = ⊥

  pub AllCanonical : Values → Type 0
  AllCanonical nil = Unit
  AllCanonical (cons v vs) = IsCanonical v × AllCanonical vs

  pub AreCanonical : Entries → Type 0
  AreCanonical end = Unit
  AreCanonical (field k v es) = IsBefore k es × IsCanonical v × AreCanonical es

-- The entries of a dictionary one after the other, without the sort.
unfoldable pub body : Entries → Option Bytes
body end = some []
body (field k v es) = join (some (encode_string k)) (join (encode v) (body es))

abbrev AllBefore : Bytes → List Bytes → Type 0
AllBefore k [] = Unit
AllBefore k (j ∷ ks) = (greater_bytes j k ≡ true) × AllBefore k ks

IsBefore-AllBefore :
    (k : Bytes) (es : Entries) → IsBefore k es → AllBefore k (keys (encode_entries es))
unfolding encode
IsBefore-AllBefore k end b = tt
IsBefore-AllBefore k (field j v es) (h, b) = (h, IsBefore-AllBefore k es b)

AllBefore-LeAll : (k : Bytes) (ks : List Bytes) → AllBefore k ks → LeAll greater_bytes k ks
AllBefore-LeAll k [] b = tt
AllBefore-LeAll k (j ∷ ks) (h, b) = (greater_bytes-IsOrder.asym j k h, AllBefore-LeAll k ks b)

keys-IsSorted : (es : Entries) → AreCanonical es → IsSorted greater_bytes (keys (encode_entries es))
unfolding encode AreCanonical
keys-IsSorted end c = tt
keys-IsSorted (field k v es) (b, _, c) =
    (AllBefore-LeAll k _ (IsBefore-AllBefore k es b), keys-IsSorted es c)

differs : (j k : Bytes) → greater_bytes j k ≡ true → j ≢ k
differs j k h p =
    let q = greater_bytes-IsOrder.irrefl k in
    let r : greater_bytes k k ≡ true = subst (λ x. greater_bytes x k ≡ true) p h in cc

eq_bytes_ne : (j k : Bytes) → j ≢ k → eq_bytes j k ≡ false
eq_bytes_ne j k h = elim (Bool-cases (eq_bytes j k)) [
  | inl e ↦ absurd (h ((eq_bytes_iff j k).0 e))
  | inr e ↦ e
]

-- An entry before all the keys does not matter to them.
encode_fields_other :
    (k : Bytes) (e : Option Bytes) (ks : List Bytes) (es : List (Bytes × Option Bytes))
    → AllBefore k ks
    → encode_fields ks ((k, e) ∷ es) ≡ encode_fields ks es
unfolding encode_fields lookup
encode_fields_other k e [] es b = refl
encode_fields_other k e (j ∷ ks) es (h, b) =
    rw (eq_bytes_ne k j (λ p. differs j k h (sym p)), encode_fields_other k e ks es b) refl

encode_fields_first :
    (k : Bytes) (e : Option Bytes) (ks : List Bytes) (es : List (Bytes × Option Bytes))
    → AllBefore k ks
    → encode_fields (k ∷ ks) ((k, e) ∷ es)
      ≡ join (some (encode_string k)) (join e (encode_fields ks es))
unfolding encode_fields lookup
encode_fields_first k e ks es b =
    rw ((eq_bytes_iff k k).1 refl, encode_fields_other k e ks es b) refl

encode_fields-body :
    (es : Entries)
    → AreCanonical es
    → encode_fields (keys (encode_entries es)) (encode_entries es) ≡ body es
unfolding encode body AreCanonical
encode_fields-body end c = unfold encode_fields in refl
encode_fields-body (field k v es) (b, _, c) =
    encode_fields_first k (encode v) (keys (encode_entries es)) (encode_entries es)
      (IsBefore-AllBefore k es b)
    ∙ ap (λ r. join (some (encode_string k)) (join (encode v) r)) (encode_fields-body es c)

-- The sort leaves the entries of a canonical dictionary as they are.
pub encode_dict-body :
    (es : Entries) → AreCanonical es → encode_dict (encode_entries es) ≡ enclose 100 (body es)
unfolding encode_dict sorted_keys
encode_dict-body es c =
    rw (exchange_sort_sorted greater_bytes (keys (encode_entries es)) (keys-IsSorted es c))
      (ap (enclose 100) (encode_fields-body es c))

-- The list that a dictionary is filled from.
unfoldable pub found : Entries → Found
found end = []
found (field k v es) = (k, v) ∷ found es

pub entries-found : (es : Entries) → entries (found es) ≡ es
unfolding entries found
entries-found end = refl
entries-found (field k v es) = ap (field k v) (entries-found es)

lookup_before : (k : Bytes) (es : Entries) → IsBefore k es → lookup k (found es) ≡ none
unfolding lookup found
lookup_before k end b = refl
lookup_before k (field j v es) (h, b) =
    let e : eq_bytes j k ≡ false = eq_bytes_ne j k (differs j k h) in rw e (lookup_before k es b)

pub found-HasUniqueKeys : (es : Entries) → AreCanonical es → HasUniqueKeys (found es)
unfolding found AreCanonical
found-HasUniqueKeys end c = tt
found-HasUniqueKeys (field k v es) (b, _, c) = (lookup_before k es b, found-HasUniqueKeys es c)
