-- ===== src/EtcdUtil/Scan.antt =====
-- The batches of Scan in server/etcdutil/util.go against one visit of all entries.
use ceresmeta.EtcdUtil.{visit_all, last_key, after_batch, scan_loop, first_batch, scan}
use ceresmeta.Common.{
  ltb, nat_eq, Bool-cases, Option-cases, length, take, drop, Result, ok, err, ℕ, zero, suc, ◌+◌,
  ◌-◌, ◌≤◌, ◌<◌, ◌≡◌, refl, sym, ap, ◌∙◌, ◌⊎◌, inl, inr, false, Option, List, [], ◌∷◌, ◌++◌, arith,
  Bytes, bytes_eq, text_eq, Result-cases,
}

abbrev Entry : Type 0
Entry = Bytes × Bytes

append_assoc : (xs ys zs : List Entry) → (xs ++ ys) ++ zs ≡ xs ++ (ys ++ zs)
append_assoc [] ys zs = refl
append_assoc (x ∷ xs) ys zs = rw (append_assoc xs ys zs) refl

take-drop : (n : ℕ) (xs : List Entry) → take n xs ++ drop n xs ≡ xs
take-drop zero xs = refl
take-drop (suc n) [] = refl
take-drop (suc n) (x ∷ xs) = rw (take-drop n xs) refl

-- A batch that is not full is all.
drop-short : (n : ℕ) (xs : List Entry) → length (take n xs) < n → drop n xs ≡ []
drop-short zero xs h = absurd (omega arith)
drop-short (suc n) [] h = refl
drop-short (suc n) (x ∷ xs) h = drop-short n xs (omega arith)

length-drop : (n : ℕ) (xs : List Entry) → length (drop n xs) ≤ length xs
length-drop zero xs = ground arith
length-drop (suc n) [] = ground arith
length-drop (suc n) (x ∷ xs) = ground (arith, length-drop n xs)

take_nil : (n : ℕ) → take {A = Entry} n [] ≡ []
take_nil zero = refl
take_nil (suc n) = refl

take_more : (n : ℕ) (x : Entry) (xs : List Entry) → take (n + 1) (x ∷ xs) ≡ x ∷ take n xs
take_more n x xs = let one_more : n + 1 ≡ suc n = omega arith in rw one_more refl

take_pos : (n : ℕ) (x : Entry) (xs : List Entry) → 0 < n → take n (x ∷ xs) ≡ x ∷ take (n - 1) xs
take_pos zero x xs h = absurd (omega arith)
take_pos (suc n) x xs h = let one_less : suc n - 1 ≡ n = omega arith in rw one_less refl

last_split :
    (j : Bytes) (x : Entry) (xs : List Entry)
    → (pre : List Entry) × (v : Bytes) × (x ∷ xs ≡ pre ++ (last_key j (x ∷ xs), v) ∷ [])
last_split j (k, v) [] = ([], v, refl)
last_split j (k, v) (y ∷ xs) =
    let (pre, w, q) = last_split k y xs in ((k, v) ∷ pre, w, ap (λ t. (k, v) ∷ t) q)

entries : (xs : List Entry) → (xs ≡ []) ⊎ ((y : Entry) × (ys : List Entry) × (xs ≡ y ∷ ys))
entries [] = inl refl
entries (y ∷ ys) = inr (y, ys, refl)

-- The last entry of a batch, and what stands before it.
resplit :
    (kvs pre : List Entry) (x : Entry) (ys zs : List Entry)
    → kvs ≡ pre ++ ((x ∷ ys) ++ zs)
    → (init : List Entry) × (w : Bytes) × (kvs ≡ init ++ (last_key [] (x ∷ ys), w) ∷ zs)
resplit kvs pre x ys zs e =
    let (init, w, q) = last_split [] x ys in
    (
      pre ++ init,
      w,
      e
          ∙ ap (λ t. pre ++ (t ++ zs)) q
          ∙ ap (λ t. pre ++ t) (append_assoc init ((last_key [] (x ∷ ys), w) ∷ []) zs)
          ∙ sym (append_assoc pre init ((last_key [] (x ∷ ys), w) ∷ zs)),
    )

abbrev then {ℓ κ} : {A : Type ℓ} {B : Type κ} → Result A → (A → Result B) → Result B
then (ok a) f = f a
then (err x) f = err x

module _ {ℓ} {A : Type ℓ} (visit : Bytes → Bytes → Option A) (end_key : Bytes) where
  visit_all-append :
      (xs ys : List Entry) (out : List A)
      → visit_all visit end_key (xs ++ ys) out
        ≡ then (visit_all visit end_key xs out) (visit_all visit end_key ys)
  unfolding visit_all
  visit_all-append [] ys out = refl
  visit_all-append ((k, v) ∷ xs) ys out = elim (Bool-cases (bytes_eq k end_key)) [
    | inl p ↦ rw p (visit_all-append xs ys out)
    | inr p ↦ elim (Option-cases (visit k v)) [
      | inl q ↦ rw (p, q) refl
      | inr (a, q) ↦ rw (p, q) (visit_all-append xs ys (out ++ a ∷ []))
    ]
  ]

  -- All keys are before the end.
  abbrev pub AllBefore : List Entry → Type 0
  AllBefore [] = Unit
  AllBefore ((k, v) ∷ kvs) = (bytes_eq k end_key ≡ false) × AllBefore kvs

  before_last :
      (pre : List Entry) (k v : Bytes) (post : List Entry)
      → AllBefore (pre ++ (k, v) ∷ post)
      → bytes_eq k end_key ≡ false
  before_last [] k v post (h, hs) = h
  before_last ((j, w) ∷ pre) k v post (h, hs) = before_last pre k v post hs

  -- The entries below the end, in ascending order of their keys, as etcd reads them.
  module _ {S : Type 0} (get_range : Bytes → Bytes → ℕ → S → Result (List Entry) × S)
      (batch_size : ℕ) (start : Bytes) (kvs : List Entry) (s : S) where
    abbrev pub StartsAt : Type 0
    StartsAt = (n : ℕ) → get_range start end_key n s ≡ (ok (take n kvs), s)

    abbrev pub Continues : Type 0
    Continues =
        (pre : List Entry) (k v : Bytes) (post : List Entry) (n : ℕ)
        → kvs ≡ pre ++ (k, v) ∷ post
        → get_range k end_key n s ≡ (ok (take n ((k, v) ∷ post)), s)

    module _ (sized : 0 < batch_size) (before : AllBefore kvs) (goes : Continues) where
      loop_all :
          (rounds : ℕ) (pre : List Entry) (k v : Bytes) (post : List Entry) (out : List A)
          → kvs ≡ pre ++ (k, v) ∷ post
          → length post < rounds
          → scan_loop get_range visit end_key batch_size rounds k out s
            ≡ (visit_all visit end_key post out, s)
      unfolding scan_loop after_batch
      loop_all zero pre k v post out e h = absurd (omega arith)
      loop_all (suc rounds) pre k v [] out e h =
          let bq = before_last pre k v [] (rw e at before) in
          let q = goes pre k v [] (batch_size + 1) e in
          rw (bq, q) (rw (take_more batch_size (k, v) [], take_nil batch_size) refl)
      loop_all (suc rounds) pre k v (x ∷ post) out e h =
          let n = batch_size - 1 in
          let ys = take n post in
          let zs = drop n post in
          let bq = before_last pre k v (x ∷ post) (rw e at before) in
          let q = goes pre k v (x ∷ post) (batch_size + 1) e in
          let parts : post ≡ ys ++ zs = sym (take-drop n post) in
          let whole =
            ap (λ t. visit_all visit end_key (x ∷ t) out) parts
            ∙ visit_all-append (x ∷ ys) zs out in
          let read =
            take_more batch_size (k, v) (x ∷ post)
            ∙ ap (λ t. (k, v) ∷ t) (take_pos batch_size x post sized) in
          let (init, w, again) = resplit kvs (pre ++ (k, v) ∷ []) x ys zs (
            e
            ∙ ap (λ t. pre ++ (k, v) ∷ x ∷ t) parts
            ∙ sym (append_assoc pre ((k, v) ∷ []) (x ∷ ys ++ zs))) in
          let next = λ (o : List A).
            loop_all rounds init (last_key [] (x ∷ ys)) w zs o again
              (omega (arith, length-drop n post)) in
          rw (bq, q)
            (rw read (elim (Result-cases (visit_all visit end_key (x ∷ ys) out)) [
              | inr (er, f) ↦ rw (f, after_batch) (ap (λ r. (r, s)) (sym (whole ∙ rw f refl)))
              | inl (o, f) ↦ elim (Bool-cases (ltb (length ((k, v) ∷ x ∷ ys)) batch_size)) [
                | inl short ↦
                    let none_left : zs ≡ [] = drop-short n post (ground arith) in
                    rw (f, short, after_batch)
                      (ap (λ r. (r, s)) (sym (whole ∙ rw (f, none_left) refl)))
                | inr long ↦
                    rw (f, long, after_batch) (next o ∙ ap (λ r. (r, s)) (sym (whole ∙ rw f refl)))
              ]
            ]))

      -- A scan in batches does what one visit of every entry in order does, its first error included,
      -- when the entries below the end are read in ascending order, the batches are not empty, and the
      -- rounds are at least as many as the entries.
      pub scan-visit_all :
          (rounds : ℕ)
          → StartsAt
          → length kvs ≤ rounds
          → scan get_range visit end_key batch_size rounds start s
            ≡ (visit_all visit end_key kvs [], s)
      unfolding scan
      scan-visit_all rounds starts h = elim (entries kvs) [
        | inl e ↦ rw (starts batch_size, e) (rw (take_nil batch_size) refl)
        | inr (x, post, e) ↦
            let n = batch_size - 1 in
            let ys = take n post in
            let zs = drop n post in
            let parts : post ≡ ys ++ zs = sym (take-drop n post) in
            let whole =
              ap (λ t. visit_all visit end_key (x ∷ t) []) parts
              ∙ visit_all-append (x ∷ ys) zs [] in
            let read = ap (take batch_size) e ∙ take_pos batch_size x post sized in
            let (init, w, again) = resplit kvs [] x ys zs (e ∙ ap (λ t. x ∷ t) parts) in
            rw (starts batch_size) (
              rw read (
                rw e (elim (Result-cases (visit_all visit end_key (x ∷ ys) [])) [
                  | inr (er, f) ↦ rw (f, first_batch) (ap (λ r. (r, s)) (sym (whole ∙ rw f refl)))
                  | inl (o, f) ↦
                      rw (f, first_batch)
                        (loop_all rounds init (last_key [] (x ∷ ys)) w zs o again
                            (omega (arith, length-drop n post, ap length e, h))
                          ∙ ap (λ r. (r, s)) (sym (whole ∙ rw f refl)))
                ])))
      ]
