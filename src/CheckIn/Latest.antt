-- ===== src/CheckIn/Latest.antt =====
-- modules/checkins/checkins.service.js and modules/reports/export.service.js: the latest scan comes
-- first, and no check-in is lost.
use qpass_backend.Prelude.{
  ℕ, ◌≤◌, ◌≡◌, refl, Bool, ◌&&◌, List, [], ◌∷◌, All, arith, Bool-cases, inl, inr, leb,
}
use qpass_backend.Prelude.Tables.{count, find_many}
use qpass_backend.Db.{CheckIn}
use qpass_backend.CheckIn.Order.{insert_by_scan, by_scan}

-- Each was scanned no earlier than those after it.
abbrev pub LatestFirst : List CheckIn → Type 0
LatestFirst [] = Unit
LatestFirst (c ∷ cs) = All (λ d. d.scanned_at ≤ c.scanned_at) cs × LatestFirst cs

All-insert :
    (n : ℕ) (c : CheckIn) (ds : List CheckIn)
    → c.scanned_at ≤ n
    → All (λ d. d.scanned_at ≤ n) ds
    → All (λ d. d.scanned_at ≤ n) (insert_by_scan c ds)
unfolding insert_by_scan
All-insert n c [] h k = (h, tt)
All-insert n c (d ∷ ds) h (k, ks) = elim (Bool-cases (leb d.scanned_at c.scanned_at)) [
  | inl e ↦ rw e (h, (k, ks))
  | inr e ↦ rw e (k, All-insert n c ds h ks)
]

All-weaken :
    (m n : ℕ) (ds : List CheckIn)
    → m ≤ n
    → All (λ d. d.scanned_at ≤ m) ds
    → All (λ d. d.scanned_at ≤ n) ds
All-weaken m n [] h k = tt
All-weaken m n (d ∷ ds) h (k, ks) = (omega (arith, h, k), All-weaken m n ds h ks)

insert-LatestFirst :
    (c : CheckIn) (ds : List CheckIn) → LatestFirst ds → LatestFirst (insert_by_scan c ds)
unfolding insert_by_scan
insert-LatestFirst c [] h = (tt, tt)
insert-LatestFirst c (d ∷ ds) (h, hs) = elim (Bool-cases (leb d.scanned_at c.scanned_at)) [
  | inl e ↦
      let le : d.scanned_at ≤ c.scanned_at = ground (arith, e) in
      rw e ((le, All-weaken d.scanned_at c.scanned_at ds le h), (h, hs))
  | inr e ↦
      let le : c.scanned_at ≤ d.scanned_at = ground (arith, e) in
      rw e (All-insert d.scanned_at c ds le h, insert-LatestFirst c ds hs)
]

pub by_scan-LatestFirst : (cs : List CheckIn) → LatestFirst (by_scan cs)
unfolding by_scan
by_scan-LatestFirst [] = tt
by_scan-LatestFirst (c ∷ cs) = insert-LatestFirst c (by_scan cs) (by_scan-LatestFirst cs)

count-insert :
    (p : CheckIn → Bool) (c : CheckIn) (ds : List CheckIn)
    → count p (insert_by_scan c ds) ≡ count p (c ∷ ds)
unfolding insert_by_scan count
count-insert p c [] = refl
count-insert p c (d ∷ ds) = ground (arith, count-insert p c ds)

count-by_scan : (p : CheckIn → Bool) (cs : List CheckIn) → count p (by_scan cs) ≡ count p cs
unfolding by_scan count
count-by_scan p [] = refl
count-by_scan p (c ∷ cs) = ground (arith, count-insert p c (by_scan cs), count-by_scan p cs)

count-find_many :
    (p q : CheckIn → Bool) (cs : List CheckIn)
    → count p (find_many q cs) ≡ count (λ c. p c && q c) cs
unfolding find_many count
count-find_many p q [] = refl
count-find_many p q (c ∷ cs) = ground (arith, count-find_many p q cs)

-- Sorted, those that pass a test are the rows of the table that pass it, each as often.
pub count-by_scan_many :
    (p q : CheckIn → Bool) (cs : List CheckIn)
    → count p (by_scan (find_many q cs)) ≡ count (λ c. p c && q c) cs
count-by_scan_many p q cs = ground (arith, count-by_scan p (find_many q cs), count-find_many p q cs)
