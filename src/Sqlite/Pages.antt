-- ===== src/Sqlite/Pages.antt =====
-- The pages of ListDeliveries and ListChangeLogs, put together.
use mathlib.Core.List.{reverse}
use webhook_event_route.Prelude.{
  ℕ, ℤ, pos, zero, suc, ◌+◌, ◌*◌, ◌≤◌, ◌<◌, ◌≡◌, refl, sym, ap, ◌∙◌, List, [], ◌∷◌, ◌++◌, take,
  drop, arith, Text,
}
use webhook_event_route.Store.{Result, ok, err}
use webhook_event_route.Sqlite.Tables.{Db, select_where}
use webhook_event_route.Sqlite.Deliveries.{
  listed, page_limit, page_number, page_offset, list_deliveries,
}
use webhook_event_route.Sqlite.Audit.{log_listed, list_change_logs}

module _ {A : Type 0} where
  take_none : (n : ℕ) → take {A = A} n [] ≡ []
  take_none zero = refl
  take_none (suc n) = refl

  take-drop : (a b : ℕ) (xs : List A) → take a xs ++ take b (drop a xs) ≡ take (a + b) xs
  take-drop zero b xs = ap (λ n. take n xs) (omega arith)
  take-drop (suc a) b [] = take_none b ∙ sym (take_none (suc a + b))
  take-drop (suc a) b (x ∷ xs) =
      let shift : suc (a + b) ≡ suc a + b = omega arith in
      ap (λ ys. x ∷ ys) (take-drop a b xs) ∙ ap (λ n. take n (x ∷ xs)) shift

  abbrev pub rows : Result (List A) → List A
  rows (ok xs) = xs
  rows (err e) = []

  -- The first pages, one after the other.
  abbrev pub pages : (ℤ → Result (List A)) → ℕ → List A
  pages page zero = []
  pages page (suc n) = pages page n ++ rows (page (pos (suc n)))

  pages_lem :
      (page : ℤ → Result (List A)) (k : ℕ) (xs : List A) (n : ℕ)
      → ((m : ℕ) → suc m ≤ n → page (pos (suc m)) ≡ ok (take k (drop (m * k) xs)))
      → pages page n ≡ take (n * k) xs
  pages_lem page k xs zero h = let none : 0 ≡ 0 * k = omega arith in ap (λ n. take n xs) none
  pages_lem page k xs (suc n) h =
      let longer : n * k + k ≡ suc n * k = omega arith in
      rw (pages_lem page k xs n (λ m l. h m (omega arith)), h n (omega arith))
        (take-drop (n * k) k xs ∙ ap (λ j. take j xs) longer)

limit_kept : (k : ℕ) → 0 < k → k ≤ 1000 → page_limit (pos k) ≡ k
unfolding page_limit
limit_kept k a b = ground arith

offset_kept :
    (m k : ℕ)
    → 0 < k
    → k ≤ 1000
    → m * k < 9223372036854775808
    → page_offset (pos (suc m)) (pos k) ≡ m * k
unfolding page_offset page_limit page_number
offset_kept m k a b c = ground (arith, limit_kept k a b)

product_le : (m n k : ℕ) → m ≤ n → m * k ≤ n * k
product_le m n k l = grind arith

offset_below :
    (m k n : ℕ)
    → 0 < k
    → k ≤ 1000
    → n * k < 9223372036854775808
    → suc m ≤ n
    → page_offset (pos (suc m)) (pos k) ≡ m * k
offset_below m k n a b c l =
    offset_kept m k a b (omega (arith, c, product_le m n k (omega (arith, l))))

page_lem :
    {A : Type 0} (m k n : ℕ) (xs : List A)
    → 0 < k
    → k ≤ 1000
    → n * k < 9223372036854775808
    → suc m ≤ n
    → ◌≡◌ {A = Result (List A)}
        (ok (take (page_limit (pos k)) (drop (page_offset (pos (suc m)) (pos k)) xs)))
        (ok (take k (drop (m * k) xs)))
page_lem m k n xs a b c l = rw (limit_kept k a b, offset_below m k n a b c l) refl

-- The first n pages of deliveries, and of the change log, for a page size of at most 1000, hold the
-- first n times that many of the rows that match, in their order, as long as no offset reaches 2 ^ 63:
-- no row is left out, and none is listed twice.
pub list_pages :
    (db : Db) (k n : ℕ) (event_id : ℤ) (status : Text) (entity_type : Text) (entity_id : ℤ)
    → 0 < k
    → k ≤ 1000
    → n * k < 9223372036854775808
    → (pages (λ p. list_deliveries event_id status p (pos k) db) n
        ≡ take (n * k) (select_where (listed event_id status) db.deliveries))
      × (pages (λ p. list_change_logs entity_type entity_id p (pos k) db) n
          ≡ take (n * k) (reverse (select_where (log_listed entity_type entity_id) db.change_logs)))
unfolding list_deliveries list_change_logs
list_pages db k n event_id status entity_type entity_id a b c = (
  pages_lem (λ p. list_deliveries event_id status p (pos k) db) k
      (select_where (listed event_id status) db.deliveries) n (λ m l. page_lem m k n _ a b c l),
  pages_lem (λ p. list_change_logs entity_type entity_id p (pos k) db) k
      (reverse (select_where (log_listed entity_type entity_id) db.change_logs)) n
      (λ m l. page_lem m k n _ a b c l),
)
