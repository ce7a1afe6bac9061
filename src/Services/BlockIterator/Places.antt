-- ===== src/Services/BlockIterator/Places.antt =====
-- What each place of the fetcher of src/services/BlockIterator.ts says of the heights that it has
-- fetched.
use dao_dao_indexer.Prelude.{
  ℕ, zero, suc, ◌+◌, ◌≤◌, ◌≡◌, refl, ap, ◌∙◌, Bool, true, false, List, [], ◌∷◌, ◌++◌, Option, none,
  some, arith,
}
use dao_dao_indexer.Services.BlockIterator.{
  Fetcher, looping, settling, finishing, stopped, Outcome, running, resolved, thrown, land,
  is_in_flight, is_to_fetch,
}

-- `count` heights from a first one on.
abbrev pub heights_from : (first count : ℕ) → List ℕ
heights_from first zero = []
heights_from first (suc count) = first ∷ heights_from (first + 1) count

pub heights_from-suc :
    (first count : ℕ)
    → heights_from first (suc count) ≡ heights_from first count ++ (first + count) ∷ []
heights_from-suc first zero = ap (λ n. n ∷ []) (omega arith)
heights_from-suc first (suc count) =
    ap (λ l. first ∷ l)
      (heights_from-suc (first + 1) count
        ∙ ap (λ n. heights_from (first + 1) count ++ n ∷ []) (omega arith))

-- The next height to fetch: at the await in the loop it is not counted yet.
abbrev pub next_height : Fetcher → ℕ → ℕ
next_height looping n = n
next_height settling n = n + 1
next_height finishing n = n
next_height stopped n = n

abbrev pub IsWithinEnd : Option ℕ → ℕ → Type 0
IsWithinEnd none n = Unit
IsWithinEnd (some end) n = n ≤ end + 1

abbrev pub IsPastEnd : Option ℕ → ℕ → Type 0
IsPastEnd none n = ⊥
IsPastEnd (some end) n = n ≡ end + 1

-- What each place of the fetcher says.
abbrev pub IsAt : Option ℕ → Fetcher → Bool → ℕ → List ℕ → Type 0
IsAt end looping fetching n in_flight = (fetching ≡ true) × IsWithinEnd end n
IsAt end settling fetching n in_flight = (fetching ≡ true) × IsWithinEnd end (n + 1)
IsAt end finishing fetching n in_flight = (fetching ≡ true) × IsPastEnd end n
IsAt end stopped fetching n in_flight = (in_flight ≡ []) × IsPastEnd end n

abbrev pub IsOver : Fetcher → Outcome → Bool → Type 0
IsOver fetcher running empty = Unit
IsOver fetcher resolved empty = (fetcher ≡ stopped) × (empty ≡ true)
IsOver fetcher thrown empty = Unit

pub not_stopped-IsOver :
    (f f' : Fetcher) (o : Outcome) (b b' : Bool) → (f ≡ stopped → ⊥) → IsOver f o b → IsOver f' o b'
not_stopped-IsOver f f' running b b' ne h = tt
not_stopped-IsOver f f' resolved b b' ne h = absurd (ne h.0)
not_stopped-IsOver f f' thrown b b' ne h = tt

pub past_end :
    (end : Option ℕ) (n : ℕ) → IsWithinEnd end n → is_to_fetch end n ≡ false → IsPastEnd end n
past_end none n h e = cc
past_end (some end) n h e = ground arith

pub within_end : (end : Option ℕ) (n : ℕ) → is_to_fetch end n ≡ true → IsWithinEnd end (n + 1)
within_end none n e = tt
within_end (some end) n e = ground arith

-- A height that lands was in flight, so the fetcher has not stopped.
pub land-IsAt :
    (end : Option ℕ) (f : Fetcher) (fetching : Bool) (n h : ℕ) (in_flight : List ℕ)
    → is_in_flight h in_flight ≡ true
    → IsAt end f fetching n in_flight
    → IsAt end f fetching n (land h in_flight) × (f ≡ stopped → ⊥)
land-IsAt end looping fetching n h in_flight fly at = (at, λ e. cc)
land-IsAt end settling fetching n h in_flight fly at = (at, λ e. cc)
land-IsAt end finishing fetching n h in_flight fly at = (at, λ e. cc)
land-IsAt end stopped fetching n h in_flight fly at = absurd (cc (fly, ap (is_in_flight h) at.0))

-- A fetcher that fetches no more has stopped.
pub idle-IsAt :
    (end : Option ℕ) (f : Fetcher) (fetching : Bool) (n : ℕ) (in_flight : List ℕ)
    → fetching ≡ false
    → IsAt end f fetching n in_flight
    → (f ≡ stopped) × IsAt end f false n in_flight
idle-IsAt end looping fetching n in_flight e at = absurd (cc (e, at.0))
idle-IsAt end settling fetching n in_flight e at = absurd (cc (e, at.0))
idle-IsAt end finishing fetching n in_flight e at = absurd (cc (e, at.0))
idle-IsAt end stopped fetching n in_flight e at = (refl, at)
