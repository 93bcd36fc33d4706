-- ===== src/Gap/Buffer/Listed.antt =====
-- S3TransferBufferer.cc, `list`: how many blocks are listed.
use infinit_io.Base.{
  ℕ, zero, suc, ◌+◌, ◌≤◌, ◌<◌, ◌≡◌, ◌∙◌, refl, sym, ap, Bool, true, false, Option, none, some, List,
  [], ◌∷◌, ◌++◌, length, length-append, length-take, take, take_all, leb, arith, if_cases, inl, inr,
  Bool-cases, if◌then◌else◌,
}
use infinit_io.Gap.Buffer.Listing.{
  Name, Item, Block, convert, convert_list, back, without_marker, page_size, list_from, list,
}

-- A folder whose listing gives a page of its items from the first one on, or from one of them on.
pub record IsFolder (items : List Item) (list_remote_folder : Option Name → List Item)
    : Type 0 where
  pub first : list_remote_folder none ≡ take page_size items
  pub again :
      (before : List Item) (i : Item) (after : List Item)
      → before ++ i ∷ after ≡ items
      → list_remote_folder (some i.name) ≡ take page_size (i ∷ after)

take-append : (k : ℕ) (xs ys : List Item) → take (length xs + k) (xs ++ ys) ≡ xs ++ take k ys
take-append k [] ys = ap (λ n. take n ys) {x = zero + k} {y = k} (omega arith)
take-append k (x ∷ xs) ys =
    ap (λ n. take n (x ∷ xs ++ ys)) {x = suc (length xs) + k} {y = suc (length xs + k)}
      (omega arith)
    ∙ ap (◌∷◌ x) (take-append k xs ys)

split_at :
    (k : ℕ) (xs : List Item)
    → k < length xs
    → (before : List Item) × (x : Item) × (after : List Item) × (length before ≡ k)
      × (before ++ x ∷ after ≡ xs)
split_at k [] h = absurd (omega arith)
split_at zero (x ∷ xs) h = ([], x, xs, refl, refl)
split_at (suc k) (x ∷ xs) h =
    let (before, y, after, l, e) = split_at k xs (omega arith) in
    (x ∷ before, y, after, omega (arith, l), ap (◌∷◌ x) e)

back-append : (before : List Item) (i : Item) → back (before ++ i ∷ []) ≡ some i.name
unfolding back
back-append [] i = refl
back-append (x ∷ []) i = refl
back-append (x ∷ y ∷ r) i = back-append (y ∷ r) i

snoc-append :
    (before : List Item) (i : Item) (ys : List Item) → (before ++ i ∷ []) ++ ys ≡ before ++ i ∷ ys
snoc-append [] i ys = refl
snoc-append (x ∷ r) i ys = ap (◌∷◌ x) (snoc-append r i ys)

take_further :
    (m k : ℕ) (items before : List Item) (i : Item) (after : List Item)
    → before ++ i ∷ after ≡ items
    → m ≡ length before + suc k
    → take m items ≡ before ++ i ∷ take k after
take_further m k items before i after e h =
    sym (ap (take m) e)
    ∙ ap (λ n. take n (before ++ i ∷ after)) h
    ∙ take-append (suc k) before (i ∷ after)

take_first :
    (m : ℕ) (items before : List Item) (i : Item) (after : List Item)
    → before ++ i ∷ after ≡ items
    → m ≡ length before + 1
    → take m items ≡ before ++ i ∷ []
take_first m items before i after e h = take_further m zero items before i after e h

convert_list-append :
    (xs ys : List Item) → convert_list (xs ++ ys) ≡ convert_list xs ++ convert_list ys
unfolding convert_list
convert_list-append [] ys = refl
convert_list-append (x ∷ xs) ys = ap (◌∷◌ (convert x)) (convert_list-append xs ys)

module _ (list_remote_folder : Option Name → List Item) where
  -- What a round does with its page.
  round : ℕ → Bool → List Item → List Block
  unfolding list_from page_size
  round n first page =
      if leb page_size (length (without_marker first page))
      then convert_list (without_marker first page)
        ++ list_from list_remote_folder n (back page) false
      else convert_list (without_marker first page)

  round-ends :
      (n : ℕ) (first : Bool) (page : List Item)
      → length (without_marker first page) < page_size
      → round n first page ≡ convert_list (without_marker first page)
  unfolding round page_size
  round-ends n first page h =
      if_cases (λ l. l ≡ convert_list (without_marker first page))
        (leb page_size (length (without_marker first page))) _ _ (λ e. absurd (ground arith))
        (λ _. refl)

  round-continues :
      (n : ℕ) (first : Bool) (page : List Item)
      → page_size ≤ length (without_marker first page)
      → round n first page
        ≡ convert_list (without_marker first page)
          ++ list_from list_remote_folder n (back page) false
  unfolding round page_size
  round-continues n first page h =
      if_cases
        (λ l.
          l
          ≡ convert_list (without_marker first page)
            ++ list_from list_remote_folder n (back page) false)
        (leb page_size (length (without_marker first page))) _ _ (λ _. refl)
        (λ e. absurd (ground arith))

  list_from-round :
      (n : ℕ) (m : Option Name) (first : Bool)
      → list_from list_remote_folder (suc n) m first ≡ round n first (list_remote_folder m)
  unfolding list_from round
  list_from-round n m first = refl

  module _ (items : List Item) (folder : IsFolder items list_remote_folder) where
    -- The second page is never as long as a page without its marker.
    second_page :
        (n : ℕ) (before : List Item) (i : Item) (after : List Item)
        → before ++ i ∷ after ≡ items
        → list_from list_remote_folder (suc n) (some i.name) false ≡ convert_list (take 999 after)
    unfolding page_size without_marker
    second_page n before i after e =
        list_from-round n (some i.name) false
        ∙ ap (round n false) (folder.again before i after e)
        ∙ round-ends n false (i ∷ take 999 after) (omega (arith, length-take 999 after))

    list-short :
        (n : ℕ)
        → length items < page_size
        → list list_remote_folder (suc n) ≡ convert_list (take 1999 items)
    unfolding list page_size without_marker
    list-short n h =
        list_from-round n none true
        ∙ ap (round n true) (folder.first ∙ take_all 1000 items (omega arith))
        ∙ round-ends n true items h
        ∙ ap convert_list (sym (take_all 1999 items (omega arith)))

    list-long :
        (n : ℕ)
        → page_size ≤ length items
        → list list_remote_folder (suc (suc n)) ≡ convert_list (take 1999 items)
    unfolding list page_size without_marker
    list-long n h =
        let (before, x, after, l, e) = split_at 999 items (omega arith) in
        list_from-round (suc n) none true
        ∙ ap (round (suc n) true)
            (folder.first ∙ take_first 1000 items before x after e (omega (arith, l)))
        ∙ round-continues (suc n) true (before ++ x ∷ [])
            (omega (arith, l, length-append before (x ∷ [])))
        ∙ ap (λ m. convert_list (before ++ x ∷ []) ++ list_from list_remote_folder (suc n) m false)
            (back-append before x)
        ∙ ap (convert_list (before ++ x ∷ []) ++◌) (second_page n before x after e)
        ∙ sym (convert_list-append (before ++ x ∷ []) (take 999 after))
        ∙ ap convert_list (
            snoc-append before x (take 999 after)
            ∙ sym (take_further 1999 999 items before x after e (omega (arith, l))))

-- Of a folder that is not empty and has more than 1999 blocks `list` returns the first 1999, and of another one all of them, where
-- the listing gives pages of 1000 and begins each with the name that it is asked to go on from: the
-- second page is a block shorter once that name is taken off, so that it counts as the last one.
pub list-lists :
    (items : List Item) (list_remote_folder : Option Name → List Item) (rounds : ℕ)
    → IsFolder items list_remote_folder
    → 0 < length items
    → 2 ≤ rounds
    → list list_remote_folder rounds ≡ convert_list (take 1999 items)
list-lists items list_remote_folder zero folder some_item h = absurd (omega arith)
list-lists items list_remote_folder (suc zero) folder some_item h = absurd (omega arith)
list-lists items list_remote_folder (suc (suc n)) folder some_item h =
    elim (Bool-cases (leb page_size (length items))) [
      | inl e ↦ list-long list_remote_folder items folder n (ground arith)
      | inr e ↦ list-short list_remote_folder items folder (suc n) (ground arith)
    ]
