-- ===== src/Services/BlockIterator/Order.antt =====
-- src/services/BlockIterator.ts: which blocks `iterate` processes, and in which order.
use mathlib.Core.Path.{subst}
use dao_dao_indexer.Prelude.{
  ℕ, suc, ◌+◌, ◌-◌, ◌≤◌, ◌≡◌, refl, sym, ap, ◌∙◌, true, false, not, ◌&&◌, ◌||◌, List, [], ◌∷◌, ◌++◌,
  map, length, Option, none, some, ltb, leb, Bool-cases, ◌⊎◌, inl, inr, arith, All,
}
use dao_dao_indexer.Services.BlockIterator.{
  BufferedItem, Fetcher, looping, settling, finishing, stopped, Outcome, running, resolved, thrown,
  Options, get_item, delete_item, is_in_flight, is_to_fetch, is_empty, Iterator, Event,
  latest_block, fetcher_runs, block_arrives, iterate_runs, stop_fetching, new, fetch_block,
  fetch_loop, settle, finish, run_fetcher, process_item, take_item, run_iterate, arrive, step, run,
}
use dao_dao_indexer.Services.BlockIterator.Heights.{
  IsHeld, fetched-IsHeld, arrived-IsHeld, taken-IsHeld,
}
use dao_dao_indexer.Services.BlockIterator.Places.{
  heights_from, heights_from-suc, next_height, IsWithinEnd, IsPastEnd, IsAt, IsOver,
  not_stopped-IsOver, past_end, within_end, land-IsAt, idle-IsAt,
}

module _ {Header Tx Err : Type 0} (options : Options) where
  abbrev pub heights_of : List (ℕ × BufferedItem Header Tx Err) → List ℕ
  heights_of items = map (λ item. item.0) items

  -- Unless an error was thrown: each height before the current one was processed once, in order, and
  -- each from there to the next one to fetch is in flight or in the buffer.
  record IsSound (s : Iterator Header Tx Err) : Type 0 where
    from : options.start_height ≤ s.current_height
    taken :
        heights_of s.processed
        ≡ heights_from options.start_height (s.current_height - options.start_height)
    held : IsHeld s.current_height (next_height s.fetcher s.fetch_height) s.in_flight s.buffer
    at : IsAt options.end_height s.fetcher s.fetching s.fetch_height s.in_flight
    over : IsOver s.fetcher s.outcome (is_empty s.buffer)

  abbrev IsGood : Iterator Header Tx Err → Type 0
  IsGood s = (s.outcome ≡ thrown) ⊎ IsSound s

  abbrev pub NoStop : Event Header Tx Err → Type 0
  NoStop (latest_block n) = Unit
  NoStop fetcher_runs = Unit
  NoStop (block_arrives n item) = Unit
  NoStop iterate_runs = Unit
  NoStop stop_fetching = ⊥

  looping-IsSound :
      (s : Iterator Header Tx Err)
      → s.fetcher ≡ looping
      → IsSound s
      → IsSound (fetch_loop options s)
  unfolding fetch_loop fetch_block
  looping-IsSound s e g =
      let at : IsAt options.end_height looping s.fetching s.fetch_height s.in_flight =
        subst (λ f. IsAt options.end_height f s.fetching s.fetch_height s.in_flight) e g.at in
      let held : IsHeld s.current_height s.fetch_height s.in_flight s.buffer =
        subst (λ f. IsHeld s.current_height (next_height f s.fetch_height) s.in_flight s.buffer) e
          g.held in
      let not_stopped : s.fetcher ≡ stopped → ⊥ = λ st. cc in
      let over : (f : Fetcher) → IsOver f s.outcome (is_empty s.buffer) = λ f.
        not_stopped-IsOver s.fetcher f s.outcome (is_empty s.buffer) (is_empty s.buffer) not_stopped
          g.over in
      let fetched = fetched-IsHeld s.current_height s.fetch_height s.in_flight s.buffer held in
      elim (Bool-cases (not (s.fetching && is_to_fetch options.end_height s.fetch_height))) [
        | inl ended ↦
            let past : is_to_fetch options.end_height s.fetch_height ≡ false =
              ground (arith, ended, at.0) in
            rw ended (record {
              from = g.from;
              taken = g.taken;
              held = held;
              at = (at.0, past_end options.end_height s.fetch_height at.1 past);
              over = over finishing;
            })
        | inr on ↦
            let within : is_to_fetch options.end_height s.fetch_height ≡ true =
              ground (arith, on, at.0) in
            elim (Bool-cases (
              leb options.buffer_size (length s.buffer)
              || ltb s.latest_block_height s.fetch_height)) [
                | inl wait ↦ rw (on, wait) g
                | inr go ↦ elim (Bool-cases (leb options.buffer_size (s.fetching_blocks + 1))) [
                  | inl full ↦
                      rw (on, go, full)
                        (record {
                          from = g.from;
                          taken = g.taken;
                          held = fetched;
                          at = (at.0, within_end options.end_height s.fetch_height within);
                          over = over settling;
                        })
                  | inr more ↦
                      rw (on, go, more)
                        (record {
                          from = g.from;
                          taken = g.taken;
                          held =
                              subst
                                (λ f.
                                  IsHeld s.current_height (next_height f (s.fetch_height + 1))
                                    (s.in_flight ++ s.fetch_height ∷ []) s.buffer)
                                (sym e) fetched;
                          at =
                              subst
                                (λ f.
                                  IsAt options.end_height f s.fetching (s.fetch_height + 1)
                                    (s.in_flight ++ s.fetch_height ∷ []))
                                (sym e) (at.0, within_end options.end_height s.fetch_height within);
                          over = over s.fetcher;
                        })
                ]
              ]
      ]

  settle-IsSound :
      (in_flight : List ℕ) (s : Iterator Header Tx Err)
      → s.in_flight ≡ in_flight
      → s.fetcher ≡ settling
      → IsSound s
      → IsSound (settle options in_flight s)
  settle-IsSound [] s none_left e g =
      let at : IsAt options.end_height settling s.fetching s.fetch_height s.in_flight =
        subst (λ f. IsAt options.end_height f s.fetching s.fetch_height s.in_flight) e g.at in
      let not_stopped : s.fetcher ≡ stopped → ⊥ = λ st. cc in
      record {
        from = g.from;
        taken = g.taken;
        held =
            subst (λ f. IsHeld s.current_height (next_height f s.fetch_height) s.in_flight s.buffer)
              e g.held;
        at = at;
        over =
            not_stopped-IsOver s.fetcher looping s.outcome (is_empty s.buffer) (is_empty s.buffer)
              not_stopped g.over;
      }
  settle-IsSound (h ∷ heights) s none_left e g = g

  finish-IsSound :
      (in_flight : List ℕ) (s : Iterator Header Tx Err)
      → s.in_flight ≡ in_flight
      → s.fetcher ≡ finishing
      → IsSound s
      → IsSound (finish options in_flight s)
  finish-IsSound [] s none_left e g =
      let at : IsAt options.end_height finishing s.fetching s.fetch_height s.in_flight =
        subst (λ f. IsAt options.end_height f s.fetching s.fetch_height s.in_flight) e g.at in
      let not_stopped : s.fetcher ≡ stopped → ⊥ = λ st. cc in
      record {
        from = g.from;
        taken = g.taken;
        held =
            subst (λ f. IsHeld s.current_height (next_height f s.fetch_height) s.in_flight s.buffer)
              e g.held;
        at = (none_left, at.1);
        over =
            not_stopped-IsOver s.fetcher stopped s.outcome (is_empty s.buffer) (is_empty s.buffer)
              not_stopped g.over;
      }
  finish-IsSound (h ∷ heights) s none_left e g = g

  fetcher-IsSound :
      (f : Fetcher) (s : Iterator Header Tx Err)
      → s.fetcher ≡ f
      → IsSound s
      → IsSound (run_fetcher options f s)
  unfolding run_fetcher
  fetcher-IsSound looping s e g = looping-IsSound s e g
  fetcher-IsSound settling s e g = settle-IsSound s.in_flight s refl e g
  fetcher-IsSound finishing s e g = finish-IsSound s.in_flight s refl e g
  fetcher-IsSound stopped s e g = g

  arrive-IsSound :
      (height : ℕ) (item : BufferedItem Header Tx Err) (s : Iterator Header Tx Err)
      → IsSound s
      → IsSound (arrive options height item s)
  unfolding arrive
  arrive-IsSound height item s g = elim (Bool-cases (is_in_flight height s.in_flight)) [
    | inl fly ↦
        let (at, not_stopped) =
          land-IsAt options.end_height s.fetcher s.fetching s.fetch_height height s.in_flight fly
            g.at in
        rw fly (record {
          from = g.from;
          taken = g.taken;
          held =
              arrived-IsHeld s.current_height (next_height s.fetcher s.fetch_height) s.in_flight
                s.buffer height item fly g.held;
          at = at;
          over =
              not_stopped-IsOver s.fetcher s.fetcher s.outcome (is_empty s.buffer) false not_stopped
                g.over;
        })
    | inr no_fly ↦ rw no_fly g
  ]

  map-append :
      (xs : List (ℕ × BufferedItem Header Tx Err)) (x : ℕ × BufferedItem Header Tx Err)
      → heights_of (xs ++ x ∷ []) ≡ heights_of xs ++ x.0 ∷ []
  map-append [] x = refl
  map-append (y ∷ xs) x = ap (λ l. y.0 ∷ l) (map-append xs x)

  take_item-IsGood :
      (found : Option (BufferedItem Header Tx Err)) (s : Iterator Header Tx Err)
      → get_item s.current_height s.buffer ≡ found
      → s.outcome ≡ running
      → IsSound s
      → IsGood (take_item options found s)
  unfolding take_item
  take_item-IsGood none s there o g = inr g
  take_item-IsGood (some item) s there o g = elim (Bool-cases (process_item options item).1) [
    | inl throws ↦ rw throws (inl refl)
    | inr passes ↦
        let start = options.start_height in
        let one_more : suc (s.current_height - start) ≡ s.current_height + 1 - start =
          omega (arith, g.from) in
        rw passes (
          inr (record {
            from = omega (arith, g.from);
            taken =
                map-append s.processed (s.current_height, item)
                ∙ ap (λ l. l ++ s.current_height ∷ []) g.taken
                ∙ ap (λ n. heights_from start (s.current_height - start) ++ n ∷ [])
                    (omega (arith, g.from))
                ∙ sym (heights_from-suc start (s.current_height - start))
                ∙ ap (heights_from start) one_more;
            held =
                taken-IsHeld s.current_height (next_height s.fetcher s.fetch_height) s.in_flight
                  s.buffer there g.held;
            at = g.at;
            over =
                subst (λ q. IsOver s.fetcher q (is_empty (delete_item s.current_height s.buffer)))
                  (sym o) tt;
          }))
  ]

  iterate-IsGood :
      (o : Outcome) (s : Iterator Header Tx Err)
      → s.outcome ≡ o
      → IsSound s
      → IsGood (run_iterate options o s)
  unfolding run_iterate
  iterate-IsGood running s o g = elim (Bool-cases (s.fetching || not (is_empty s.buffer))) [
    | inl more ↦ rw more (take_item-IsGood (get_item s.current_height s.buffer) s refl o g)
    | inr over ↦
        let idle : s.fetching ≡ false = ground (arith, over) in
        let empty : is_empty s.buffer ≡ true = ground (arith, over) in
        let (done, at) =
          idle-IsAt options.end_height s.fetcher s.fetching s.fetch_height s.in_flight idle g.at in
        rw over (
          inr (record {
            from = g.from;
            taken = g.taken;
            held = g.held;
            at = at;
            over = (done, empty);
          }))
  ]
  iterate-IsGood resolved s o g = inr g
  iterate-IsGood thrown s o g = inr g

  outcome-settle :
      (heights : List ℕ) (s : Iterator Header Tx Err)
      → (settle options heights s).outcome ≡ s.outcome
  outcome-settle [] s = refl
  outcome-settle (h ∷ heights) s = refl

  outcome-finish :
      (heights : List ℕ) (s : Iterator Header Tx Err)
      → (finish options heights s).outcome ≡ s.outcome
  outcome-finish [] s = refl
  outcome-finish (h ∷ heights) s = refl

  outcome-run_fetcher :
      (f : Fetcher) (s : Iterator Header Tx Err) → (run_fetcher options f s).outcome ≡ s.outcome
  unfolding run_fetcher fetch_loop fetch_block
  outcome-run_fetcher looping s =
      elim (Bool-cases (not (s.fetching && is_to_fetch options.end_height s.fetch_height))) [
        | inl ended ↦ rw ended refl
        | inr on ↦
            elim (Bool-cases (
              leb options.buffer_size (length s.buffer)
              || ltb s.latest_block_height s.fetch_height)) [
                | inl wait ↦ rw (on, wait) refl
                | inr go ↦ elim (Bool-cases (leb options.buffer_size (s.fetching_blocks + 1))) [
                  | inl full ↦ rw (on, go, full) refl
                  | inr more ↦ rw (on, go, more) refl
                ]
              ]
      ]
  outcome-run_fetcher settling s = outcome-settle s.in_flight s
  outcome-run_fetcher finishing s = outcome-finish s.in_flight s
  outcome-run_fetcher stopped s = refl

  -- An error that is thrown ends the loop for good.
  thrown-step :
      (e : Event Header Tx Err) (s : Iterator Header Tx Err)
      → s.outcome ≡ thrown
      → (step options e s).outcome ≡ thrown
  unfolding step arrive run_iterate
  thrown-step (latest_block n) s t = t
  thrown-step fetcher_runs s t = outcome-run_fetcher s.fetcher s ∙ t
  thrown-step (block_arrives n item) s t = elim (Bool-cases (is_in_flight n s.in_flight)) [
    | inl fly ↦ rw fly t
    | inr no_fly ↦ rw no_fly t
  ]
  thrown-step iterate_runs s t = subst (λ o. (run_iterate options o s).outcome ≡ thrown) (sym t) t
  thrown-step stop_fetching s t = t

  step-IsGood :
      (e : Event Header Tx Err) (s : Iterator Header Tx Err)
      → NoStop e
      → IsGood s
      → IsGood (step options e s)
  unfolding step
  step-IsGood e s n (inl t) = inl (thrown-step e s t)
  step-IsGood (latest_block height) s n (inr g) =
      inr (record { from = g.from; taken = g.taken; held = g.held; at = g.at; over = g.over })
  step-IsGood fetcher_runs s n (inr g) = inr (fetcher-IsSound s.fetcher s refl g)
  step-IsGood (block_arrives height item) s n (inr g) = inr (arrive-IsSound height item s g)
  step-IsGood iterate_runs s n (inr g) = iterate-IsGood s.outcome s refl g
  step-IsGood stop_fetching s n (inr g) = absurd n

  run-IsGood :
      (events : List (Event Header Tx Err)) (s : Iterator Header Tx Err)
      → All NoStop events
      → IsGood s
      → IsGood (run options events s)
  unfolding run
  run-IsGood [] s n g = g
  run-IsGood (e ∷ events) s n g = run-IsGood events (step options e s) n.1 (step-IsGood e s n.0 g)

  new-IsGood : IsWithinEnd options.end_height options.start_height → IsGood (new options)
  unfolding get_item
  new-IsGood within = inr (record {
    from = omega arith;
    taken =
        let zero_count : 0 ≡ options.start_height - options.start_height = omega arith in
        ap (heights_from options.start_height) zero_count;
    held = record {
      reached = omega arith;
      held = λ h from before. absurd (omega (arith, from, before));
      buffered = λ h e. cc;
      flying = λ h e. cc;
    };
    at = (refl, within);
    over = tt;
  })

  get_item_of_empty :
      (h : ℕ) (buffer : List (ℕ × BufferedItem Header Tx Err))
      → is_empty buffer ≡ true
      → get_item h buffer ≡ none
  unfolding get_item
  get_item_of_empty h [] e = refl
  get_item_of_empty h (x ∷ buffer) e = cc

  nothing_left :
      (s : Iterator Header Tx Err)
      → s.in_flight ≡ []
      → is_empty s.buffer ≡ true
      → IsHeld s.current_height s.fetch_height s.in_flight s.buffer
      → s.current_height ≡ s.fetch_height
  unfolding get_item
  nothing_left s none_left empty h = elim (Bool-cases (ltb s.current_height s.fetch_height)) [
    | inl before ↦ elim (h.held s.current_height (omega arith) (ground arith)) [
      | inl fly ↦ absurd (cc (sym fly ∙ ap (is_in_flight s.current_height) none_left))
      | inr there ↦ absurd (there (get_item_of_empty s.current_height s.buffer empty))
    ]
    | inr after ↦ ground (arith, h.reached)
  ]

  resolved-heights :
      (end : ℕ) (s : Iterator Header Tx Err)
      → options.end_height ≡ some end
      → s.outcome ≡ resolved
      → IsSound s
      → heights_of s.processed ≡ heights_from options.start_height (end + 1 - options.start_height)
  resolved-heights end s e o g =
      let over = subst (λ q. IsOver s.fetcher q (is_empty s.buffer)) o g.over in
      let at =
        subst (λ f. IsAt options.end_height f s.fetching s.fetch_height s.in_flight) over.0 g.at in
      let last : s.fetch_height ≡ end + 1 = subst (λ q. IsPastEnd q s.fetch_height) e at.1 in
      let held =
        subst (λ f. IsHeld s.current_height (next_height f s.fetch_height) s.in_flight s.buffer)
          over.0 g.held in
      g.taken
      ∙ ap (λ n. heights_from options.start_height (n - options.start_height))
          (nothing_left s at.0 over.1 held ∙ last)

  -- If `stopFetching` is not called, and `iterate` resolves, it has processed each height from the
  -- start to the end exactly once, in order. (There is an end height, and it is not before the
  -- start.)
  pub run-heights :
      (events : List (Event Header Tx Err)) (end : ℕ)
      → All NoStop events
      → options.end_height ≡ some end
      → options.start_height ≤ end
      → (run options events (new options)).outcome ≡ resolved
      → heights_of (run options events (new options)).processed
        ≡ heights_from options.start_height (end + 1 - options.start_height)
  run-heights events end n e le done =
      let within = subst (λ q. IsWithinEnd q options.start_height) (sym e) (omega (arith, le)) in
      elim (run-IsGood events (new options) n (new-IsGood within)) [
        | inl t ↦ absurd (cc (t, done))
        | inr g ↦ resolved-heights end (run options events (new options)) e done g
      ]
