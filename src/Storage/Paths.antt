-- ===== src/Storage/Paths.antt =====
-- `path.Join` of the Go library, and its inverse on names.
use ceresmeta.Common.{
  if◌then◌else◌, ◌==◌, nat_eq, Bool-cases, elem, ℕ, ◌≡◌, refl, sym, ap, inl, inr, Bool, true, false,
  ◌&&◌, ◌||◌, not, List, [], ◌∷◌, ◌++◌, arith, Bytes, text_eq,
}

abbrev pub slash : ℕ
slash = b'/'

-- The parts between the slashes.
abbrev cons_head : ℕ → List Bytes → List Bytes
cons_head c [] = (c ∷ []) ∷ []
cons_head c (p ∷ ps) = (c ∷ p) ∷ ps

unfoldable pub split : Bytes → List Bytes
split [] = [] ∷ []
split (c ∷ s) = let rest = split s in if c == slash then [] ∷ rest else cons_head c rest

unfoldable pub join : List Bytes → Bytes
join [] = []
join (p ∷ []) = p
join (p ∷ q ∷ ps) = p ++ (slash ∷ join (q ∷ ps))

abbrev dot : Bytes
dot = b'.' ∷ []

abbrev dots : Bytes
dots = b'.' ∷ b'.' ∷ []

-- A `..` takes the last part away, unless there is none to take.
drop_last : Bool → List Bytes → List Bytes
drop_last rooted [] = if rooted then [] else dots ∷ []
drop_last rooted (p ∷ []) = if p == dots then p ∷ dots ∷ [] else []
drop_last rooted (p ∷ q ∷ ps) = p ∷ drop_last rooted (q ∷ ps)

push : Bool → List Bytes → Bytes → List Bytes
unfolding drop_last
push rooted out p =
    if p == [] || p == dot then out else if p == dots then drop_last rooted out else out ++ p ∷ []

resolve : Bool → List Bytes → List Bytes → List Bytes
unfolding push
resolve rooted out [] = out
resolve rooted out (p ∷ ps) = resolve rooted (push rooted out p) ps

abbrev is_rooted : Bytes → Bool
is_rooted [] = false
is_rooted (c ∷ s) = c == slash

render : Bool → List Bytes → Bytes
unfolding join
render true ps = slash ∷ join ps
render false [] = dot
render false (p ∷ ps) = join (p ∷ ps)

-- `path.Clean`
clean : Bytes → Bytes
unfolding split resolve render
clean s = render (is_rooted s) (resolve (is_rooted s) [] (split s))

nonempty : List Bytes → List Bytes
nonempty [] = []
nonempty (p ∷ ps) = let rest = nonempty ps in if p == [] then rest else p ∷ rest

unfoldable pub path_join : List Bytes → Bytes
unfolding clean nonempty
path_join ps = elim (nonempty ps) [ [] ↦ [] | q ∷ qs ↦ clean (join (q ∷ qs)) ]

-- A part that `path.Join` leaves as it is.
abbrev pub is_name : Bytes → Bool
is_name p = not (p == []) && not (p == dot) && not (p == dots) && not (elem slash p)

abbrev pub AllNames : List Bytes → Type 0
AllNames [] = Unit
AllNames (p ∷ ps) = (is_name p ≡ true) × AllNames ps

split-no_slash : (p : Bytes) → elem slash p ≡ false → split p ≡ p ∷ []
unfolding split
split-no_slash [] h = refl
split-no_slash (c ∷ p) h = ground (arith, split-no_slash p)

split_parts : (a : Bytes) → (p : Bytes) × (ps : List Bytes) × (split a ≡ p ∷ ps)
unfolding split
split_parts [] = ([], [], refl)
split_parts (c ∷ a) = elim (Bool-cases (c == slash)) [
  | inl e ↦ ([], split a, rw e refl)
  | inr e ↦ let (p, ps, q) = split_parts a in (c ∷ p, ps, rw (e, q) refl)
]

split-append : (a b : Bytes) → split (a ++ slash ∷ b) ≡ split a ++ split b
unfolding split
split-append [] b = refl
split-append (c ∷ a) b = let (p, ps, q) = split_parts a in ground (arith, split-append a b, q)

pub split-join : (p : Bytes) (ps : List Bytes) → AllNames (p ∷ ps) → split (join (p ∷ ps)) ≡ p ∷ ps
unfolding join
split-join p [] (h, hs) = split-no_slash p (ground arith)
split-join p (q ∷ ps) (h, hs) =
    rw (split-append p (join (q ∷ ps)))
      (rw (split-no_slash p (ground arith), split-join q ps hs) refl)

resolve-append :
    (r : Bool) (out ps qs : List Bytes) → resolve r out (ps ++ qs) ≡ resolve r (resolve r out ps) qs
unfolding resolve
resolve-append r out [] qs = refl
resolve-append r out (p ∷ ps) qs = resolve-append r (push r out p) ps qs

append_assoc : (xs ys zs : List Bytes) → (xs ++ ys) ++ zs ≡ xs ++ (ys ++ zs)
append_assoc [] ys zs = refl
append_assoc (x ∷ xs) ys zs = rw (append_assoc xs ys zs) refl

append_nil : (xs : List Bytes) → xs ++ [] ≡ xs
append_nil [] = refl
append_nil (x ∷ xs) = rw (append_nil xs) refl

push-name :
    (r : Bool) (out : List Bytes) (p : Bytes) → is_name p ≡ true → push r out p ≡ out ++ p ∷ []
unfolding push
push-name r out p h = ground arith

resolve-names : (r : Bool) (out ps : List Bytes) → AllNames ps → resolve r out ps ≡ out ++ ps
unfolding resolve
resolve-names r out [] h = sym (append_nil out)
resolve-names r out (p ∷ ps) (h, hs) =
    rw (push-name r out p h, resolve-names r (out ++ p ∷ []) ps hs) (append_assoc out (p ∷ []) ps)

bytes_assoc : (xs ys zs : Bytes) → (xs ++ ys) ++ zs ≡ xs ++ (ys ++ zs)
bytes_assoc [] ys zs = refl
bytes_assoc (x ∷ xs) ys zs = rw (bytes_assoc xs ys zs) refl

join-append :
    (b : Bytes) (bs : List Bytes) (x : Bytes) (xs : List Bytes)
    → join ((b ∷ bs) ++ (x ∷ xs)) ≡ join (b ∷ bs) ++ (slash ∷ join (x ∷ xs))
unfolding join
join-append b [] x xs = refl
join-append b (c ∷ bs) x xs =
    rw (join-append c bs x xs) (sym (bytes_assoc b (slash ∷ join (c ∷ bs)) (slash ∷ join (x ∷ xs))))

-- What stands before the names that are joined to a root.
prefix_of : Bool → List Bytes → Bytes
prefix_of r [] = if r then slash ∷ [] else []
prefix_of r (b ∷ bs) = (if r then slash ∷ [] else []) ++ (join (b ∷ bs) ++ slash ∷ [])

pub root_prefix : Bytes → Bytes
unfolding prefix_of
root_prefix root = prefix_of (is_rooted root) (resolve (is_rooted root) [] (split root))

render-names :
    (r : Bool) (base : List Bytes) (x : Bytes) (xs : List Bytes)
    → render r (base ++ (x ∷ xs)) ≡ prefix_of r base ++ join (x ∷ xs)
unfolding render prefix_of
render-names true [] x xs = refl
render-names false [] x xs = refl
render-names true (b ∷ bs) x xs =
    rw (join-append b bs x xs)
      (ap (λ t. slash ∷ t) (sym (bytes_assoc (join (b ∷ bs)) (slash ∷ []) (join (x ∷ xs)))))
render-names false (b ∷ bs) x xs =
    rw (join-append b bs x xs) (sym (bytes_assoc (join (b ∷ bs)) (slash ∷ []) (join (x ∷ xs))))

nonempty-names : (ps : List Bytes) → AllNames ps → nonempty ps ≡ ps
unfolding nonempty
nonempty-names [] h = refl
nonempty-names (p ∷ ps) (h, hs) = ground (arith, nonempty-names ps hs)

-- Names that are joined to a root stand behind a prefix that the root alone decides.
pub path_join-names :
    (c : ℕ) (root : Bytes) (x : Bytes) (xs : List Bytes)
    → AllNames (x ∷ xs)
    → path_join ((c ∷ root) ∷ x ∷ xs) ≡ root_prefix (c ∷ root) ++ join (x ∷ xs)
unfolding path_join root_prefix clean nonempty join
path_join-names c root x xs h =
    let r = is_rooted (c ∷ root) in
    let base = resolve r [] (split (c ∷ root)) in
    rw (nonempty-names (x ∷ xs) h) (
      rw (split-append (c ∷ root) (join (x ∷ xs)), split-join x xs h)
        (rw (resolve-append r [] (split (c ∷ root)) (x ∷ xs), resolve-names r base (x ∷ xs) h)
          (render-names r base x xs)))
