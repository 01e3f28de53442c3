-- ===== src/Sched/Queue/Ring.antt =====
-- What the run queue stands for: the list of the tasks that the links pass through, head first.
use atmkoala.Base.{
  ℕ, ◌≡◌, Option, none, some, true, false, List, [], ◌∷◌, ◌++◌, has, Distinct, update, arith,
}

-- From `x` the links lead through `xs` to `z`.
abbrev pub Links : (ℕ → Option ℕ) → ℕ → List ℕ → ℕ → Type 0
Links nx x [] z = nx x ≡ some z
Links nx x (y ∷ ys) z = (nx x ≡ some y) × Links nx y ys z

-- The head pointer and the links of a queue of tasks: null, or a ring of distinct tasks.
abbrev pub IsRing : Option ℕ → (ℕ → Option ℕ) → List ℕ → Type 0
IsRing head nx [] = head ≡ none
IsRing head nx (x ∷ xs) = (head ≡ some x) × Links nx x xs x × Distinct (x ∷ xs)

-- The last task of a ring that begins with `x`.
abbrev pub last_of : ℕ → List ℕ → ℕ
last_of x [] = x
last_of x (y ∷ ys) = last_of y ys

pub Links-same :
    (f g : ℕ → Option ℕ) (x : ℕ) (xs : List ℕ) (z : ℕ)
    → ((a : ℕ) → has a (x ∷ xs) ≡ true → g a ≡ f a)
    → Links f x xs z
    → Links g x xs z
Links-same f g x [] z same l = ground (arith, same x)
Links-same f g x (y ∷ ys) z same l =
    (ground (arith, same x), Links-same f g y ys z (λ a h. same a (ground arith)) l.1)

-- A write outside the path keeps it.
pub Links-update :
    (f : ℕ → Option ℕ) (t : ℕ) (v : Option ℕ) (x : ℕ) (xs : List ℕ) (z : ℕ)
    → has t (x ∷ xs) ≡ false
    → Links f x xs z
    → Links (update f t v) x xs z
Links-update f t v x xs z out l = Links-same f (update f t v) x xs z (λ a h. ground arith) l

pub Links-append :
    (f : ℕ → Option ℕ) (x : ℕ) (xs : List ℕ) (y : ℕ) (ys : List ℕ) (z : ℕ)
    → Links f x xs y
    → Links f y ys z
    → Links f x (xs ++ (y ∷ ys)) z
Links-append f x [] y ys z l m = (l, m)
Links-append f x (w ∷ ws) y ys z l m = (l.0, Links-append f w ws y ys z l.1 m)

pub has-last : (x : ℕ) (xs : List ℕ) → has (last_of x xs) (x ∷ xs) ≡ true
has-last x [] = ground arith
has-last x (y ∷ ys) = ground (arith, has-last y ys)

-- Redirecting the last link redirects the path.
pub Links-last :
    (f : ℕ → Option ℕ) (x : ℕ) (xs : List ℕ) (z w : ℕ)
    → Distinct (x ∷ xs)
    → Links f x xs z
    → Links (update f (last_of x xs) (some w)) x xs w
Links-last f x [] z w d l = ground arith
Links-last f x (y ∷ ys) z w d l = (ground (arith, has-last y ys), Links-last f y ys z w d.1 l.1)

-- A ring depends on the head and the links alone.
pub IsRing-same :
    (h h' : Option ℕ) (f g : ℕ → Option ℕ) (q : List ℕ)
    → h' ≡ h
    → ((a : ℕ) → g a ≡ f a)
    → IsRing h f q
    → IsRing h' g q
IsRing-same h h' f g [] e same r = ground arith
IsRing-same h h' f g (x ∷ xs) e same r =
    (ground arith, Links-same f g x xs x (λ a _. same a) r.1, r.2)
