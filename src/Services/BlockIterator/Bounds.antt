-- ===== src/Services/BlockIterator/Bounds.antt =====
-- src/services/BlockIterator.ts: how many blocks are in the buffer and in flight.
use mathlib.Core.Path.{subst}
use dao_dao_indexer.Prelude.{
  ℕ, ◌+◌, ◌<◌, ◌≤◌, ◌≡◌, refl, sym, ap, not, ◌&&◌, ◌||◌, List, [], ◌∷◌, ◌++◌, length, length-append,
  Option, none, some, ltb, leb, Bool-cases, inl, inr, arith,
}
use dao_dao_indexer.Services.BlockIterator.{
  BufferedItem, Fetcher, looping, settling, finishing, stopped, Outcome, running, resolved, thrown,
  Options, get_item, is_in_flight, is_to_fetch, is_empty, Iterator, Event, latest_block,
  fetcher_runs, block_arrives, iterate_runs, stop_fetching, new, fetch_block, fetch_loop, settle,
  finish, run_fetcher, process_item, take_item, run_iterate, arrive, step, run,
}
use dao_dao_indexer.Services.BlockIterator.Heights.{length-delete_item, length-land}

-- The calls since the last await of all: fewer than the buffer size where the loop makes one more.
abbrev IsBelow : Fetcher → ℕ → ℕ → Type 0
IsBelow looping n size = n < size
IsBelow settling n size = n ≤ size
IsBelow finishing n size = n ≤ size
IsBelow stopped n size = n ≤ size

below-le : (f : Fetcher) (n size : ℕ) → IsBelow f n size → n ≤ size
below-le looping n size h = omega (arith, h)
below-le settling n size h = h
below-le finishing n size h = h
below-le stopped n size h = h

module _ {Header Tx Err : Type 0} (options : Options) (positive : 1 ≤ options.buffer_size) where
  record IsBounded (s : Iterator Header Tx Err) : Type 0 where
    below : IsBelow s.fetcher s.fetching_blocks options.buffer_size
    in_flight : length s.in_flight ≤ s.fetching_blocks
    total : length s.in_flight + length s.buffer < options.buffer_size + options.buffer_size

  looping-IsBounded :
      (s : Iterator Header Tx Err)
      → s.fetcher ≡ looping
      → IsBounded s
      → IsBounded (fetch_loop options s)
  unfolding fetch_loop fetch_block
  looping-IsBounded s e g =
      let below : s.fetching_blocks < options.buffer_size =
        subst (λ f. IsBelow f s.fetching_blocks options.buffer_size) e g.below in
      let one_more : length (s.in_flight ++ s.fetch_height ∷ []) ≡ length s.in_flight + 1 =
        length-append s.in_flight (s.fetch_height ∷ []) in
      elim (Bool-cases (not (s.fetching && is_to_fetch options.end_height s.fetch_height))) [
        | inl ended ↦
            rw ended
              (record { below = omega (arith, below); in_flight = g.in_flight; total = g.total })
        | inr on ↦
            elim (Bool-cases (
              leb options.buffer_size (length s.buffer)
              || ltb s.latest_block_height s.fetch_height)) [
                | inl wait ↦ rw (on, wait) g
                | inr go ↦
                    let room : length s.buffer < options.buffer_size = ground (arith, go) in
                    elim (Bool-cases (leb options.buffer_size (s.fetching_blocks + 1))) [
                      | inl full ↦
                          rw (on, go, full)
                            (record {
                              below = omega (arith, below);
                              in_flight = omega (arith, one_more, g.in_flight);
                              total = omega (arith, one_more, g.in_flight, room, below);
                            })
                      | inr more ↦
                          rw (on, go, more)
                            (record {
                              below =
                                  subst (λ f. IsBelow f (s.fetching_blocks + 1) options.buffer_size)
                                    (sym e) (ground (arith, more));
                              in_flight = omega (arith, one_more, g.in_flight);
                              total = omega (arith, one_more, g.in_flight, room, below);
                            })
                    ]
              ]
      ]

  settle-IsBounded :
      (heights : List ℕ) (s : Iterator Header Tx Err)
      → s.in_flight ≡ heights
      → IsBounded s
      → IsBounded (settle options heights s)
  settle-IsBounded [] s e g =
      let none_left : length s.in_flight ≡ 0 = ap length e in
      record { below = positive; in_flight = omega (arith, none_left); total = g.total }
  settle-IsBounded (h ∷ heights) s e g = g

  finish-IsBounded :
      (heights : List ℕ) (s : Iterator Header Tx Err)
      → s.fetcher ≡ finishing
      → IsBounded s
      → IsBounded (finish options heights s)
  finish-IsBounded [] s e g = record {
    below = subst (λ f. IsBelow f s.fetching_blocks options.buffer_size) e g.below;
    in_flight = g.in_flight;
    total = g.total;
  }
  finish-IsBounded (h ∷ heights) s e g = g

  fetcher-IsBounded :
      (f : Fetcher) (s : Iterator Header Tx Err)
      → s.fetcher ≡ f
      → IsBounded s
      → IsBounded (run_fetcher options f s)
  unfolding run_fetcher
  fetcher-IsBounded looping s e g = looping-IsBounded s e g
  fetcher-IsBounded settling s e g = settle-IsBounded s.in_flight s refl g
  fetcher-IsBounded finishing s e g = finish-IsBounded s.in_flight s e g
  fetcher-IsBounded stopped s e g = g

  arrive-IsBounded :
      (height : ℕ) (item : BufferedItem Header Tx Err) (s : Iterator Header Tx Err)
      → IsBounded s
      → IsBounded (arrive options height item s)
  unfolding arrive
  arrive-IsBounded height item s g = elim (Bool-cases (is_in_flight height s.in_flight)) [
    | inl fly ↦
        let landed = length-land height s.in_flight fly in
        let kept = length-delete_item height s.buffer in
        rw fly (record {
          below = g.below;
          in_flight = omega (arith, landed, g.in_flight);
          total = omega (arith, landed, kept, g.total);
        })
    | inr no_fly ↦ rw no_fly g
  ]

  take_item-IsBounded :
      (found : Option (BufferedItem Header Tx Err)) (s : Iterator Header Tx Err)
      → IsBounded s
      → IsBounded (take_item options found s)
  unfolding take_item
  take_item-IsBounded none s g = g
  take_item-IsBounded (some item) s g =
      let kept = length-delete_item s.current_height s.buffer in
      elim (Bool-cases (process_item options item).1) [
        | inl throws ↦ rw throws (record {
          below = g.below;
          in_flight = g.in_flight;
          total = omega (arith, kept, g.total);
        })
        | inr passes ↦ rw passes (record {
          below = g.below;
          in_flight = g.in_flight;
          total = omega (arith, kept, g.total);
        })
      ]

  iterate-IsBounded :
      (o : Outcome) (s : Iterator Header Tx Err) → IsBounded s → IsBounded (run_iterate options o s)
  unfolding run_iterate
  iterate-IsBounded running s g = elim (Bool-cases (s.fetching || not (is_empty s.buffer))) [
    | inl more ↦ rw more (take_item-IsBounded (get_item s.current_height s.buffer) s g)
    | inr over ↦ rw over (record { below = g.below; in_flight = g.in_flight; total = g.total })
  ]
  iterate-IsBounded resolved s g = g
  iterate-IsBounded thrown s g = g

  step-IsBounded :
      (e : Event Header Tx Err) (s : Iterator Header Tx Err)
      → IsBounded s
      → IsBounded (step options e s)
  unfolding step
  step-IsBounded (latest_block height) s g = record {
    below = g.below;
    in_flight = g.in_flight;
    total = g.total;
  }
  step-IsBounded fetcher_runs s g = fetcher-IsBounded s.fetcher s refl g
  step-IsBounded (block_arrives height item) s g = arrive-IsBounded height item s g
  step-IsBounded iterate_runs s g = iterate-IsBounded s.outcome s g
  step-IsBounded stop_fetching s g = record {
    below = g.below;
    in_flight = g.in_flight;
    total = g.total;
  }

  run-IsBounded :
      (events : List (Event Header Tx Err)) (s : Iterator Header Tx Err)
      → IsBounded s
      → IsBounded (run options events s)
  unfolding run
  run-IsBounded [] s g = g
  run-IsBounded (e ∷ events) s g = run-IsBounded events (step options e s) (step-IsBounded e s g)

  -- Over any events, also of `stopFetching`, the blocks in the buffer and in flight together are
  -- fewer than two times the buffer size, and those in flight at most the buffer size. (The buffer
  -- size is not 0.)
  pub run-length :
      (events : List (Event Header Tx Err))
      → let s = run options events (new options) in
        (length s.in_flight + length s.buffer < options.buffer_size + options.buffer_size)
        × (length s.in_flight ≤ options.buffer_size)
  run-length events =
      let start : IsBounded (new options) = record {
        below = positive;
        in_flight = omega arith;
        total = omega (arith, positive);
      } in
      let g = run-IsBounded events (new options) start in
      let s = run options events (new options) in
      (
        g.total,
        omega
            (arith, g.in_flight, below-le s.fetcher s.fetching_blocks options.buffer_size g.below),
      )
