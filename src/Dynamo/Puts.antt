-- ===== src/Dynamo/Puts.antt =====
-- What a table holds after a transaction was accepted, and when one is canceled.
use amt_trust_check_radar_la.Base.{
  String, Bool, true, ◌&&◌, not, Option, some, List, [], ◌∷◌, ◌++◌, ◌≡◌, any, str_eq, arith,
}
use amt_trust_check_radar_la.Python.{Dict}
use amt_trust_check_radar_la.Dynamo.{
  Key, Action, condition_check, delete, put_item, update, key_of, table_of, condition_of, holds,
}

-- The rows that the transaction puts into the table are there, each under its own key.
abbrev pub Stored : String → (Key → Option Dict) → List Action → Type 0
Stored table read [] = Unit
Stored table read (put_item t item c ∷ acts) =
    (str_eq t table ≡ true → read (key_of (put_item t item c)) ≡ some item) × Stored table read acts
Stored table read (condition_check t k c ∷ acts) = Stored table read acts
Stored table read (delete t k c ∷ acts) = Stored table read acts
Stored table read (update t k cs c ∷ acts) = Stored table read acts

module _ (table : String) (read : Key → Option Dict) where
  pub Stored-right : (xs ys : List Action) → Stored table read (xs ++ ys) → Stored table read ys
  Stored-right [] ys h = h
  Stored-right (put_item t item c ∷ xs) ys h = Stored-right xs ys h.1
  Stored-right (condition_check t k c ∷ xs) ys h = Stored-right xs ys h
  Stored-right (delete t k c ∷ xs) ys h = Stored-right xs ys h
  Stored-right (update t k cs c ∷ xs) ys h = Stored-right xs ys h

  pub Stored-left : (xs ys : List Action) → Stored table read (xs ++ ys) → Stored table read xs
  Stored-left [] ys h = tt
  Stored-left (put_item t item c ∷ xs) ys h = (h.0, Stored-left xs ys h.1)
  Stored-left (condition_check t k c ∷ xs) ys h = Stored-left xs ys h
  Stored-left (delete t k c ∷ xs) ys h = Stored-left xs ys h
  Stored-left (update t k cs c ∷ xs) ys h = Stored-left xs ys h

-- The condition of some action on the table does not hold of the row that it names, so that the service
-- cancels the whole transaction.
abbrev pub canceled_in : String → (Key → Option Dict) → List Action → Bool
canceled_in table read acts =
    any (λ a. str_eq (table_of a) table && not (holds (condition_of a) (read (key_of a)))) acts

any-right : (p : Action → Bool) (xs ys : List Action) → any p ys ≡ true → any p (xs ++ ys) ≡ true
any-right p [] ys h = h
any-right p (x ∷ xs) ys h = ground (arith, any-right p xs ys h)

any-left : (p : Action → Bool) (xs ys : List Action) → any p xs ≡ true → any p (xs ++ ys) ≡ true
any-left p [] ys h = cc
any-left p (x ∷ xs) ys h = ground (arith, any-left p xs ys)

-- One refused action cancels every transaction that contains it.
module _ (table : String) (read : Key → Option Dict) (xs ys : List Action) where
  pub canceled_in-left : canceled_in table read xs ≡ true → canceled_in table read (xs ++ ys) ≡ true
  canceled_in-left h = any-left _ xs ys h

  pub canceled_in-right :
      canceled_in table read ys ≡ true → canceled_in table read (xs ++ ys) ≡ true
  canceled_in-right h = any-right _ xs ys h
