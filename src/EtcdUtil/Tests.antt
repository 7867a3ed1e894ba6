-- ===== src/EtcdUtil/Tests.antt =====
-- A scan over three entries in batches of two.
use ceresmeta.EtcdUtil.{visit_all, scan}
use ceresmeta.EtcdUtil.Scan.{scan-visit_all, Continues}
use ceresmeta.Common.{
  if◌then◌else◌, ◌==◌, nat_eq, take, Result, ok, ℕ, ◌≡◌, refl, ap, ◌∙◌, Option, none, some, List,
  [], ◌∷◌, arith, Bytes, text_eq,
}

abbrev kvs : List (Bytes × Bytes)
kvs = (1 ∷ [], 10 ∷ []) ∷ (2 ∷ [], 20 ∷ []) ∷ (3 ∷ [], 30 ∷ []) ∷ []

abbrev from_key : Bytes → List (Bytes × Bytes) → List (Bytes × Bytes)
from_key k [] = []
from_key k ((j, v) ∷ rest) = let found = from_key k rest in if j == k then (j, v) ∷ rest else found

abbrev range : Bytes → Bytes → ℕ → Unit {0} → Result (List (Bytes × Bytes)) × Unit {0}
range k end_key n s = (ok (take n (from_key k kvs)), s)

abbrev first : Bytes → Bytes → Option ℕ
first k [] = none
first k (v ∷ vs) = some v

range-Continues : Continues first (9 ∷ []) range 2 (1 ∷ []) kvs tt
range-Continues [] k v post n e =
    let same : k ≡ 1 ∷ [] = cc in ap (λ t. (ok (take n t), tt)) (ap (λ t. from_key t kvs) same ∙ e)
range-Continues (x ∷ []) k v post n e =
    let same : k ≡ 2 ∷ [] = cc in
    let rest : (2 ∷ [], 20 ∷ []) ∷ (3 ∷ [], 30 ∷ []) ∷ [] ≡ (k, v) ∷ post = cc in
    ap (λ t. (ok (take n t), tt)) (ap (λ t. from_key t kvs) same ∙ rest)
range-Continues (x ∷ y ∷ []) k v post n e =
    let same : k ≡ 3 ∷ [] = cc in
    let rest : (3 ∷ [], 30 ∷ []) ∷ [] ≡ (k, v) ∷ post = cc in
    ap (λ t. (ok (take n t), tt)) (ap (λ t. from_key t kvs) same ∙ rest)
range-Continues (x ∷ y ∷ z ∷ []) k v post n e = absurd (cc)
range-Continues (x ∷ y ∷ z ∷ w ∷ pre) k v post n e = absurd (cc)

scan-visit_all_example :
    scan range first (9 ∷ []) 2 3 (1 ∷ []) tt ≡ (visit_all first (9 ∷ []) kvs [], tt)
scan-visit_all_example =
    scan-visit_all first (9 ∷ []) range 2 (1 ∷ []) kvs tt (omega arith) (refl, (refl, (refl, tt)))
      range-Continues 3 (λ n. refl) (omega arith)

scan_runs : scan range first (9 ∷ []) 2 3 (1 ∷ []) tt ≡ (ok (10 ∷ 20 ∷ 30 ∷ []), tt)
unfolding scan
scan_runs = refl
