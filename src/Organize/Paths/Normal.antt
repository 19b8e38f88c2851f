-- ===== src/Organize/Paths/Normal.antt =====
-- `path/filepath` on absolute paths without empty elements, `.` and `..`: joining adds an element,
-- and `Dir` takes it away.
use mathlib.Core.List.{reverse, foldl, reverse-reverse, reverse-cons}
use mediarr.Common.{
  ◌==◌, nat_eq, string_eq, ℕ, ◌≡◌, refl, sym, ap, ◌∙◌, true, false, ◌||◌, List, [], ◌∷◌, ◌++◌,
  append_assoc, append-nil, arith,
}
use mediarr.Common.Bytes.{Bytes, eq_bytes, bytes_eq, codes}
use mediarr.Organize.Paths.{
  slash, is_empty, elements, go_to, with_slashes, clean, join, split_path, dir,
}

abbrev pub NoSlash : Bytes → Type 0
NoSlash [] = Unit
NoSlash (c ∷ s) = ((c == slash) ≡ false) × NoSlash s

pub record IsElement (e : Bytes) : Type 0 where
  pub no_slash : NoSlash e
  pub is_name : (eq_bytes e [] || eq_bytes e (codes ".")) ≡ false
  pub not_up : eq_bytes e (codes "..") ≡ false

abbrev pub AllElements : List Bytes → Type 0
AllElements [] = Unit
AllElements (e ∷ es) = IsElement e × AllElements es

-- The absolute path of the elements.
abbrev pub root_path : List Bytes → Bytes
unfolding with_slashes
root_path es = slash ∷ with_slashes es

elements_last : (e : Bytes) → NoSlash e → elements e ≡ e ∷ []
unfolding elements
elements_last [] h = refl
elements_last (c ∷ e) (h, hs) = rw (h, elements_last e hs) refl

elements_append : (e path : Bytes) → NoSlash e → elements (e ++ slash ∷ path) ≡ e ∷ elements path
unfolding elements
elements_append [] path h = refl
elements_append (c ∷ e) path (h, hs) = rw (h, elements_append e path hs) refl

go_to_element : (es : List Bytes) (e : Bytes) → IsElement e → go_to true es e ≡ e ∷ es
go_to_element es e h = rw (h.is_name, h.not_up) refl

-- Going along a path and then into `e`, which may be empty.
go_along :
    (es acc : List Bytes) (e : Bytes)
    → AllElements es
    → NoSlash e
    → foldl (go_to true) acc (elements (with_slashes es ++ slash ∷ e))
      ≡ go_to true (reverse es ++ acc) e
unfolding with_slashes elements
go_along [] acc e h n = rw (elements_last e n) refl
go_along (x ∷ []) acc e (h, hs) n =
    rw (elements_append x e h.no_slash, elements_last e n, go_to_element acc x h) refl
go_along (x ∷ y ∷ es) acc e (h, hs) n =
    rw
      (
        append_assoc x (slash ∷ with_slashes (y ∷ es)) (slash ∷ e),
        elements_append x _ h.no_slash,
        reverse-cons x (y ∷ es),
        append_assoc (reverse (y ∷ es)) (x ∷ []) acc,
      )
      (ap (λ a. foldl (go_to true) a (elements (with_slashes (y ∷ es) ++ slash ∷ e)))
          (go_to_element acc x h)
        ∙ go_along (y ∷ es) (x ∷ acc) e hs n)

pub append-AllElements :
    (es : List Bytes) (e : Bytes) → AllElements es → IsElement e → AllElements (es ++ e ∷ [])
append-AllElements [] e h i = (i, tt)
append-AllElements (x ∷ es) e (h, hs) i = (h, append-AllElements es e hs i)

-- The cleaned form of a path with one element more.
clean_step :
    (es : List Bytes) (e : Bytes)
    → AllElements es
    → NoSlash e
    → clean (slash ∷ with_slashes es ++ slash ∷ e)
      ≡ slash ∷ with_slashes (reverse (go_to true (reverse es ++ []) e))
unfolding clean
clean_step es e h n = ap (λ r. slash ∷ with_slashes (reverse r)) (go_along es [] e h n)

pub join-root_path :
    (es : List Bytes) (e : Bytes)
    → AllElements es
    → IsElement e
    → join (root_path es) e ≡ root_path (es ++ e ∷ [])
unfolding join
join-root_path es [] h i = absurd (ground (arith, i.is_name))
join-root_path es (c ∷ e) h i =
    clean_step es (c ∷ e) h i.no_slash
    ∙ ap (λ r. slash ∷ with_slashes (reverse r)) (go_to_element (reverse es ++ []) (c ∷ e) i)
    ∙ ap (λ r. slash ∷ with_slashes r) back
  where
    back : reverse ((c ∷ e) ∷ (reverse es ++ [])) ≡ es ++ (c ∷ e) ∷ []
    back = reverse-cons (c ∷ e) (reverse es ++ []) ∙ simp (append-nil, reverse-reverse)

split_path_last : (e : Bytes) → NoSlash e → split_path e ≡ ([], e)
unfolding split_path
split_path_last [] n = refl
split_path_last (c ∷ e) (h, n) = rw (split_path_last e n, h) refl

is_empty_append : (path e : Bytes) (c : ℕ) → is_empty (path ++ c ∷ e) ≡ false
is_empty_append [] e c = refl
is_empty_append (d ∷ path) e c = refl

split_path_append :
    (path e : Bytes) → NoSlash e → split_path (path ++ slash ∷ e) ≡ (path ++ slash ∷ [], e)
unfolding split_path
split_path_append [] e n = rw (split_path_last e n) refl
split_path_append (c ∷ path) e n =
    rw (split_path_append path e n) (ground (arith, is_empty_append path [] slash))

with_slashes_append :
    (x : Bytes) (es : List Bytes) (e : Bytes)
    → with_slashes ((x ∷ es) ++ e ∷ []) ≡ with_slashes (x ∷ es) ++ slash ∷ e
unfolding with_slashes
with_slashes_append x [] e = refl
with_slashes_append x (y ∷ es) e =
    rw (with_slashes_append y es e)
      (sym (append_assoc x (slash ∷ with_slashes (y ∷ es)) (slash ∷ e)))

pub dir-root_path :
    (es : List Bytes) (e : Bytes)
    → AllElements es
    → IsElement e
    → dir (root_path (es ++ e ∷ [])) ≡ root_path es
unfolding dir clean
dir-root_path [] e h i = ap (λ r. clean r.0) (split_path_append [] e i.no_slash)
dir-root_path (x ∷ es) e h i =
    let path = slash ∷ with_slashes (x ∷ es) in
    ap (λ r. dir (slash ∷ r)) (with_slashes_append x es e)
    ∙ ap (λ r. clean r.0) (split_path_append path e i.no_slash)
    ∙ clean_step (x ∷ es) [] h tt
    ∙ ap (λ r. slash ∷ with_slashes r) back
  where
    back : reverse (reverse (x ∷ es) ++ []) ≡ x ∷ es
    back = simp (append-nil, reverse-reverse)
