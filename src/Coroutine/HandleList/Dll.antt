-- ===== src/Coroutine/HandleList/Dll.antt =====
-- Which lists of handles a `HandleList` of src/coroutine.rs stands for: its links run through the
-- handles in order, both ways.
use coio_rs.Base.{
  ◌≡◌, refl, ap, ◌⊎◌, inl, inr, Bool, true, false, ◌||◌, List, [], ◌∷◌, ◌++◌, Option, none, some,
  arith, ◌==◌, length, Bool-cases,
}
use coio_rs.Coroutine.HandleList.{Handle, Heap, HandleList}

abbrev pub has : Handle → List Handle → Bool
has a [] = false
has a (x ∷ xs) = (x == a) || has a xs

abbrev pub Distinct : List Handle → Type 0
Distinct [] = Unit
Distinct (x ∷ xs) = (has x xs ≡ false) × Distinct xs

abbrev pub Disjoint : List Handle → List Handle → Type 0
Disjoint xs ys = (a : Handle) → has a xs ≡ true → has a ys ≡ false

-- The first handle, and the last, of a list that stands before `e` or behind `p`.
abbrev pub first_or : Option Handle → List Handle → Option Handle
first_or e [] = e
first_or e (x ∷ xs) = some x

abbrev pub last_or : Option Handle → List Handle → Option Handle
last_or p [] = p
last_or p (x ∷ xs) = last_or (some x) xs

-- `xs` are linked both ways, with `p` before them and `e` behind.
abbrev pub Chain : Heap → Option Handle → List Handle → Option Handle → Type 0
Chain h p [] e = Unit
Chain h p (x ∷ xs) e = ((h x).prev ≡ p) × ((h x).next ≡ first_or e xs) × Chain h (some x) xs e

-- The list that starts at the first of `xs`, ends at the last, and counts them.
abbrev pub spanning : List Handle → HandleList
spanning xs = record { length = length xs; head = first_or none xs; tail = last_or none xs }

pub record IsList (h : Heap) (l : HandleList) (xs : List Handle) : Type 0 where
  pub spans : l ≡ spanning xs
  pub chain : Chain h none xs none
  pub distinct : Distinct xs

-- A coroutine that stands in no list: new ones, and those that a list has given out.
abbrev pub IsDetached : Heap → Handle → Type 0
IsDetached h c = ((h c).prev ≡ none) × ((h c).next ≡ none)

-- `g` differs from `h` at most at the handles of `xs`.
abbrev pub SameOutside : List Handle → Heap → Heap → Type 0
SameOutside xs h g = (a : Handle) → has a xs ≡ false → g a ≡ h a

pub has-append : (a : Handle) (xs ys : List Handle) → has a (xs ++ ys) ≡ (has a xs || has a ys)
has-append a [] ys = refl
has-append a (x ∷ xs) ys = ground (arith, has-append a xs ys)

pub Chain-frame :
    (h g : Heap) (p e : Option Handle) (xs : List Handle)
    → Chain h p xs e
    → ((a : Handle) → has a xs ≡ true → g a ≡ h a)
    → Chain g p xs e
Chain-frame h g p e [] c same = tt
Chain-frame h g p e (x ∷ xs) c same = (
  ground (arith, same x),
  ground (arith, same x),
  Chain-frame h g (some x) e xs c.2 (λ a i. same a (ground arith)),
)

pub Chain-append :
    (h : Heap) (p e : Option Handle) (xs ys : List Handle)
    → Chain h p xs (first_or e ys)
    → Chain h (last_or p xs) ys e
    → Chain h p (xs ++ ys) e
Chain-append h p e [] ys c d = d
Chain-append h p e (x ∷ []) ys c d = (c.0, c.1, d)
Chain-append h p e (x ∷ (y ∷ xs)) ys c d = (c.0, c.1, Chain-append h (some x) e (y ∷ xs) ys c.2 d)

pub Chain-split :
    (h : Heap) (p e : Option Handle) (xs ys : List Handle)
    → Chain h p (xs ++ ys) e
    → Chain h p xs (first_or e ys) × Chain h (last_or p xs) ys e
Chain-split h p e [] ys c = (tt, c)
Chain-split h p e (x ∷ []) ys c = ((c.0, c.1, tt), c.2)
Chain-split h p e (x ∷ (y ∷ xs)) ys c =
    let (l, r) = Chain-split h (some x) e (y ∷ xs) ys c.2 in ((c.0, c.1, l), r)

pub last_or-append :
    (p : Option Handle) (xs ys : List Handle) → last_or p (xs ++ ys) ≡ last_or (last_or p xs) ys
last_or-append p [] ys = refl
last_or-append p (x ∷ xs) ys = last_or-append (some x) xs ys

pub first_or-append :
    (e : Option Handle) (xs ys : List Handle) → first_or e (xs ++ ys) ≡ first_or (first_or e ys) xs
first_or-append e [] ys = refl
first_or-append e (x ∷ xs) ys = refl

pub Distinct-append :
    (xs ys : List Handle) → Distinct xs → Distinct ys → Disjoint xs ys → Distinct (xs ++ ys)
Distinct-append [] ys d e f = e
Distinct-append (x ∷ xs) ys d e f = (
  ground (arith, has-append x xs ys, f x),
  Distinct-append xs ys d.1 e (λ a i. f a (ground arith)),
)

pub Distinct-split :
    (xs ys : List Handle) → Distinct (xs ++ ys) → Distinct xs × Distinct ys × Disjoint xs ys
Distinct-split [] ys d = (tt, d, λ a i. cc)
Distinct-split (x ∷ xs) ys d =
    let (l, r, f) = Distinct-split xs ys d.1 in
    (
      (ground (arith, has-append x xs ys), l),
      r,
      λ a i. elim (Bool-cases (x == a)) [
        | inl e ↦ ground (arith, has-append x xs ys)
        | inr e ↦ f a (ground arith)
      ],
    )

-- A list is empty or has a last entry.
pub snoc_cases :
    (xs : List Handle) → (xs ≡ []) ⊎ ((ys : List Handle) × (y : Handle) × (xs ≡ ys ++ (y ∷ [])))
snoc_cases [] = inl refl
snoc_cases (x ∷ xs) = elim (snoc_cases xs) [
  | inl e ↦ inr ([], x, ap (λ t. x ∷ t) e)
  | inr (ys, y, e) ↦ inr (x ∷ ys, y, ap (λ t. x ∷ t) e)
]

pub last_or-snoc :
    (p : Option Handle) (xs : List Handle) (y : Handle) → last_or p (xs ++ (y ∷ [])) ≡ some y
last_or-snoc p [] y = refl
last_or-snoc p (x ∷ xs) y = last_or-snoc (some x) xs y

pub has-append_left :
    (a : Handle) (xs ys : List Handle) → has a (xs ++ ys) ≡ false → has a xs ≡ false
has-append_left a xs ys h = ground (arith, has-append a xs ys)
