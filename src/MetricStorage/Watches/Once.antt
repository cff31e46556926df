-- ===== src/MetricStorage/Watches/Once.antt =====
-- What `ensureWatches` does to the list of the kinds that are watched.
use ceilometer_operator.Prelude.{
  [], ℕ, ◌≤◌, ◌+◌, ◌≡◌, ◌↔◌, inl, inr, ◌∙◌, subst, refl, ap, String, Bool, true, false, Option,
  none, some, List, ◌∷◌, ◌++◌, ◌||◌, if◌then◌else◌, str_eq, eq_iff, arith, Bool-cases, is_some, not,
}
use ceilometer_operator.Cluster.{Cluster}
use ceilometer_operator.MetricStorage.Calls.{Calls}
use ceilometer_operator.MetricStorage.Watches.{is_watched, started, defined, ensure_watches}

-- `r.Watching` is a field of the reconciler: it holds what was written last, and the calls of the
-- API leave it alone.
pub record WatchingLaws (k : Cluster) (c : Calls k) : Type 0 where
  pub watching-set :
      (names : List String) (w : k.World) → c.watching (c.set_watching names w) ≡ names
  pub watching-definition :
      (name : String) (w : k.World) → c.watching (c.get_definition name w).1 ≡ c.watching w
  pub watching-watch :
      (name : String) (w : k.World) → c.watching (c.controller_watch name w).1 ≡ c.watching w

-- how often a kind is in the list
unfoldable pub count : String → List String → ℕ
count name [] = 0
count name (x ∷ xs) = (if str_eq x name then 1 else 0) + count name xs

count-append : (n : String) (xs ys : List String) → count n (xs ++ ys) ≡ count n xs + count n ys
unfolding count
count-append n [] ys = omega arith
count-append n (x ∷ xs) ys = let h = count-append n xs ys in omega arith

count_of_not_watched : (n : String) (xs : List String) → is_watched n xs ≡ false → count n xs ≡ 0
unfolding count is_watched
count_of_not_watched n [] h = refl
count_of_not_watched n (x ∷ xs) h = ground (arith, count_of_not_watched n xs)

is_watched-append :
    (n : String) (xs ys : List String)
    → is_watched n (xs ++ ys) ≡ is_watched n xs || is_watched n ys
unfolding is_watched
is_watched-append n [] ys = refl
is_watched-append n (x ∷ xs) ys = ground (arith, is_watched-append n xs ys)

str_eq_refl : (n : String) → str_eq n n ≡ true
str_eq_refl n = (eq_iff n n).1 refl

module _ (k : Cluster) (c : Calls k) (l : WatchingLaws k c) (name : String) (w : k.World) where
  -- the list, with the name added if there was no error
  abbrev list_of : Option k.Error → List String
  list_of o = if is_some o then c.watching w else c.watching w ++ name ∷ []

  started_list :
      (r : Option k.Error × k.World)
      → c.watching r.1 ≡ c.watching w
      → c.watching (started k c name r).1 ≡ list_of (started k c name r).0
  unfolding started
  started_list (some e, w') h = h
  started_list (none, w') h = rw (l.watching-set, h) refl

  defined_list :
      (r : Option k.Error × k.World)
      → c.watching r.1 ≡ c.watching w
      → c.watching (defined k c name r).1 ≡ list_of (defined k c name r).0
  unfolding defined
  defined_list (some e, w') h = h
  defined_list (none, w') h =
      started_list (c.controller_watch name w') (l.watching-watch name w' ∙ h)

  -- The list afterwards: the name is added unless it is there or there was an error.
  list_after : c.watching (ensure_watches k c name w).1 ≡ (
      if is_watched name (c.watching w) || is_some (ensure_watches k c name w).0
      then c.watching w
      else c.watching w ++ name ∷ [])
  unfolding ensure_watches
  list_after = elim (Bool-cases (is_watched name (c.watching w))) [
    | inl h ↦ rw h refl
    | inr h ↦ rw h (defined_list (c.get_definition name w) (l.watching-definition name w))
  ]

  no_error_of_watched : is_watched name (c.watching w) ≡ true → (ensure_watches k c name w).0 ≡ none
  unfolding ensure_watches
  no_error_of_watched h = rw h refl

  watched_after :
      (b e : Bool)
      → is_watched name (c.watching w) ≡ b
      → is_watched name (if b || e then c.watching w else c.watching w ++ name ∷ []) ≡ b || not e
  unfolding is_watched
  watched_after true e h = h
  watched_after false true h = h
  watched_after false false h =
      is_watched-append name (c.watching w) (name ∷ []) ∙ rw (h, str_eq_refl) refl

  -- `ensureWatches` returns no error exactly if the kind is watched afterwards.
  pub ensure_watches_iff :
      ((ensure_watches k c name w).0 ≡ none)
      ↔ (is_watched name (c.watching (ensure_watches k c name w).1) ≡ true)
  ensure_watches_iff =
      let h =
        ap (is_watched name) list_after
        ∙ watched_after (is_watched name (c.watching w)) (is_some (ensure_watches k c name w).0)
            refl in
      (λ e. ground (arith, h), λ e. ground (arith, h, no_error_of_watched))

  count_after :
      (n : String) (b e : Bool)
      → is_watched name (c.watching w) ≡ b
      → count n (c.watching w) ≤ 1
      → count n (if b || e then c.watching w else c.watching w ++ name ∷ []) ≤ 1
  unfolding count
  count_after n true e h p = p
  count_after n false true h p = p
  count_after n false false h p = elim (Bool-cases (str_eq name n)) [
    | inl q ↦
        let z = count_of_not_watched name (c.watching w) h in
        let zn : count n (c.watching w) ≡ 0 =
          subst (λ m. count m (c.watching w) ≡ 0) ((eq_iff name n).0 q) z in
        rw (count-append, q) (omega arith)
    | inr q ↦ rw (count-append, q) (omega arith)
  ]

  -- A kind that is in the list at most once is in it at most once afterwards, whichever kind was asked
  -- for: no watch is started twice.
  pub ensure_watches_once :
      (n : String)
      → count n (c.watching w) ≤ 1
      → count n (c.watching (ensure_watches k c name w).1) ≤ 1
  ensure_watches_once n h = rw list_after (
      count_after n (is_watched name (c.watching w)) (is_some (ensure_watches k c name w).0) refl h)
