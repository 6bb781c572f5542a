-- ===== src/Authority/Usage/Pages.antt =====
-- What the loop over the query's pages has found of the open reservations.
use mathlib.Core.Logic.Or
use mathlib.Core.List.{Mem, Mem-prop, mem-cons, not-mem-nil, mem-append_left, mem-append_right}
use amt_trust_check_radar_la.Base.{
  ℕ, suc, zero, ◌≡◌, ◌∙◌, refl, true, not, Option, none, some, List, [], ◌∷◌, ◌++◌, map, ok,
  Ensures, Ensures-ok, Ensures-bind, Ensures-require, Ensures-raise_if, Ensures-if, Ensures-option,
  ap, sym, subst,
}
use amt_trust_check_radar_la.Python.{Dict}
use amt_trust_check_radar_la.Dynamo.{Key, Action}
use amt_trust_check_radar_la.Authority.Usage.Actions.{Period}
use amt_trust_check_radar_la.Authority.Usage.Pending.{Receipt}
use amt_trust_check_radar_la.Authority.Usage.Open.{is_open_of, pending_receipt}
use amt_trust_check_radar_la.Authority.Usage.Closing.{
  Page, Remote, close_all, gather_row, gather_rows, gather_pages,
}
use amt_trust_check_radar_la.Authority.Usage.Closures.{Closes, close_receipt-Closes}

-- a row of a page of the query, or of a page that follows it
pub data Found (query : Option Dict → Page) (row : Dict) : Option Dict → Type 0 where
  in_page : {cursor : Option Dict} → Mem row (query cursor).items → Found query row cursor
  in_next :
      {cursor : Option Dict} {c : Dict}
      → (query cursor).last_key ≡ some c
      → Found query row (some c)
      → Found query row cursor

-- one action for each receipt, in their order
pub data AllClosed (k : Key) (now : ℕ) : List Receipt → List Action → Type 0 where
  none_left : AllClosed k now [] []
  closed :
      {r : Receipt} {a : Action} {rs : List Receipt} {actions : List Action}
      → Closes k now r a
      → AllClosed k now rs actions
      → AllClosed k now (r ∷ rs) (a ∷ actions)

abbrev pub rows_of : List Receipt → List Dict
rows_of rs = map (λ r. r.row) rs

rows_of-append : (rs ss : List Receipt) → rows_of (rs ++ ss) ≡ rows_of rs ++ rows_of ss
rows_of-append [] ss = refl
rows_of-append (r ∷ rs) ss = rw (rows_of-append rs ss) refl

pub close_all-AllClosed :
    (e : Remote) (k : Key) (now : ℕ) (rs : List Receipt)
    → Ensures (AllClosed k now rs) (close_all e k now rs)
unfolding close_all
close_all-AllClosed e k now [] = Ensures-ok _ none_left
close_all-AllClosed e k now (r ∷ rs) = Ensures-bind _ _ λ a ha. Ensures-bind _ _ λ rest hr.
    Ensures-ok _ (
      closed ((close_receipt-Closes e k now r).at a ha)
        ((close_all-AllClosed e k now rs).at rest hr))

pending_receipt-row :
    (k : Key) (p : Period) (d : Dict) → Ensures (λ r. r.row ≡ d) (pending_receipt k p d)
unfolding pending_receipt
pending_receipt-row k p d = Ensures-raise_if _ _ _ λ h1. Ensures-require _ _ _ λ grant h2.
    Ensures-require _ _ _ λ check h3. Ensures-raise_if _ _ _ λ h4.
      Ensures-require _ _ _ λ revision h5. Ensures-require _ _ _ λ settle h6.
        Ensures-require _ _ _ λ deadline h7. Ensures-require _ _ _ λ access h8.
          Ensures-require _ _ _ λ scope h9.
            Ensures-raise_if _ _ _ λ h10. Ensures-raise_if _ _ _ λ h11. Ensures-ok _ refl

module _ (e : Remote) (k : Key) (p : Period) (now : ℕ) where
  -- every receipt passed the tests of the row that it carries
  pub AllChecked : List Receipt → Type 0
  AllChecked [] = Unit
  AllChecked (r ∷ rs) = (pending_receipt k p r.row ≡ ok r) × AllChecked rs

  checked-append :
      (rs : List Receipt) (r : Receipt)
      → AllChecked rs
      → pending_receipt k p r.row ≡ ok r
      → AllChecked (rs ++ (r ∷ []))
  unfolding AllChecked
  checked-append [] r c h = (h, c)
  checked-append (s ∷ rs) r c h = (c.0, checked-append rs r c.1 h)

  -- what a row adds to the receipts that were found before
  record GathersRow (d : Dict) (pending more : List Receipt) : Type 0 where
    kept : (x : Dict) → Mem x (rows_of pending) → Mem x (rows_of more)
    found : is_open_of k p d ≡ true → Mem d (rows_of more)
    checked : AllChecked pending → AllChecked more

  kept-append : (rs ss : List Receipt) (x : Dict) → Mem x (rows_of rs) → Mem x (rows_of (rs ++ ss))
  kept-append rs ss x m =
      subst (Mem x) (sym (rows_of-append rs ss)) (mem-append_left (rows_of ss) m)

  found-append :
      (rs : List Receipt) (r : Receipt) (d : Dict) → r.row ≡ d → Mem d (rows_of (rs ++ (r ∷ [])))
  found-append rs r d h =
      subst (Mem d) (sym (rows_of-append rs (r ∷ [])))
        (mem-append_right (rows_of rs) (mem-cons.1 (Or.inl (sym h))))

  gather_row-Gathers :
      (pending : List Receipt) (d : Dict)
      → Ensures (GathersRow d pending) (gather_row e k p now pending d)
  unfolding gather_row
  gather_row-Gathers pending d =
      Ensures-if (not (is_open_of k p d)) _ _
        (λ h.
          Ensures-ok _ (record { kept = λ x m. m; found = λ o. cc (ap not o); checked = λ c. c }))
        λ h. Ensures-bind _ _ λ r hr. Ensures-bind _ _ λ m hm. Ensures-raise_if _ _ _ λ hc.
          let same = (pending_receipt-row k p d).at r hr in
          Ensures-ok _ (record {
            kept = kept-append pending (r ∷ []);
            found = λ o. found-append pending r d same;
            checked = λ c.
                checked-append pending r c
                  (subst (λ y. pending_receipt k p y ≡ ok r) (sym same) hr);
          })

  -- the same of several rows
  record GathersRows (ds : List Dict) (pending more : List Receipt) : Type 0 where
    kept : (x : Dict) → Mem x (rows_of pending) → Mem x (rows_of more)
    found : (x : Dict) → Mem x ds → is_open_of k p x ≡ true → Mem x (rows_of more)
    checked : AllChecked pending → AllChecked more

  gather_rows-Gathers :
      (pending : List Receipt) (ds : List Dict)
      → Ensures (GathersRows ds pending) (gather_rows e k p now pending ds)
  unfolding gather_rows
  gather_rows-Gathers pending [] =
      Ensures-ok _
        (record { kept = λ x m. m; found = λ x m o. absurd (not-mem-nil m); checked = λ c. c })
  gather_rows-Gathers pending (d ∷ ds) = Ensures-bind _ _ λ some_more h. record {
    at = λ more h1.
        let row = (gather_row-Gathers pending d).at some_more h in
        let rest = (gather_rows-Gathers some_more ds).at more h1 in
        record {
          kept = λ x m. rest.kept x (row.kept x m);
          found = λ x m o.
              Or.elim Mem-prop (mem-cons.0 m)
                (λ same. rest.kept x (
                  subst (λ y. Mem y (rows_of some_more)) (sym same)
                    (row.found (subst (λ y. is_open_of k p y ≡ true) same o))))
                (λ m1. rest.found x m1 o);
          checked = λ c. rest.checked (row.checked c);
        };
  }

  -- the same of the pages from a cursor on, if no page is left
  record GathersPages (cursor : Option Dict) (pending : List Receipt)
      (result : List Receipt × Option Dict) : Type 0 where
    kept : (x : Dict) → Mem x (rows_of pending) → Mem x (rows_of result.0)
    found :
        (x : Dict)
        → result.1 ≡ none
        → Found e.query x cursor
        → is_open_of k p x ≡ true
        → Mem x (rows_of result.0)
    checked : AllChecked pending → AllChecked result.0

  last-Gathers :
      (cursor : Option Dict) (pending more : List Receipt)
      → (e.query cursor).last_key ≡ none
      → GathersRows (e.query cursor).items pending more
      → GathersPages cursor pending (more, none)
  last-Gathers cursor pending more h g = record {
    kept = g.kept;
    found = λ x n f o. last_found x f o;
    checked = g.checked;
  }
    where
      last_found :
          (x : Dict) → Found e.query x cursor → is_open_of k p x ≡ true → Mem x (rows_of more)
      last_found x (in_page m) o = g.found x m o
      last_found x (in_next hc f) o = cc

  next-Gathers :
      (cursor : Option Dict) (c : Dict) (pending more : List Receipt)
      (result : List Receipt × Option Dict)
      → (e.query cursor).last_key ≡ some c
      → GathersRows (e.query cursor).items pending more
      → GathersPages (some c) more result
      → GathersPages cursor pending result
  next-Gathers cursor c pending more result h g rest = record {
    kept = λ x m. rest.kept x (g.kept x m);
    found = λ x n f o. next_found x n f o;
    checked = λ t. rest.checked (g.checked t);
  }
    where
      next_found :
          (x : Dict)
          → result.1 ≡ none
          → Found e.query x cursor
          → is_open_of k p x ≡ true
          → Mem x (rows_of result.0)
      next_found x n (in_page m) o = rest.kept x (g.found x m o)
      next_found x n (in_next {c = b} hb f) o =
          rest.found x n (subst (λ y. Found e.query x y) (sym hb ∙ h) f) o

  abbrev PagesGather : ℕ → Option Dict → Type 0
  PagesGather n cursor =
      (pending : List Receipt)
      → Ensures (GathersPages cursor pending) (gather_pages e k p now n cursor pending)

  one_more-Gathers :
      (n : ℕ) (cursor : Option Dict)
      → ((c : Dict) → PagesGather n (some c))
      → PagesGather (suc n) cursor
  unfolding gather_pages
  one_more-Gathers n cursor rest pending = Ensures-bind _ _ λ more h.
      let g = (gather_rows-Gathers pending (e.query cursor).items).at more h in
      Ensures-option (e.query cursor).last_key _ _
        (λ hn. Ensures-ok _ (last-Gathers cursor pending more hn g))
        λ c hc. record {
          at = λ result hr.
              next-Gathers cursor c pending more result hc g ((rest c more).at result hr);
        }

  next_pages-Gathers : (n : ℕ) (c : Dict) → PagesGather n (some c)
  unfolding gather_pages
  next_pages-Gathers zero c pending =
      Ensures-ok _ (record { kept = λ x m. m; found = λ x n f o. cc; checked = λ t. t })
  next_pages-Gathers (suc n) c pending = one_more-Gathers n (some c) (next_pages-Gathers n) pending

  -- what the whole loop found, if it reached the last page
  pub record GathersAll (result : List Receipt × Option Dict) : Type 0 where
    pub checked : AllChecked result.0
    pub every_open :
        result.1 ≡ none
        → (x : Dict) → Found e.query x none
        → is_open_of k p x ≡ true
        → Mem x (rows_of result.0)

  pub gather_pages-Gathers : Ensures GathersAll (gather_pages e k p now 8 none [])
  unfolding AllChecked
  gather_pages-Gathers = record {
    at = λ result h.
        let g = (one_more-Gathers 7 none (next_pages-Gathers 7) []).at result h in
        record { checked = g.checked tt; every_open = λ n x f o. g.found x n f o };
  }
