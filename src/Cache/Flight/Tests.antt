-- ===== src/Cache/Flight/Tests.antt =====
-- Cache.Flight at concrete inputs.
use runtime_rs.Base.{ℕ, ◌≡◌, refl, none, some, Str, [], ◌∷◌, codes}
use runtime_rs.Base.Assoc
use runtime_rs.Cache.Flight
use runtime_rs.Cache.Flight.{
  Load, loaded, panics, Flight, Reach, here, next, call, finishes, unlists, sends, borrow, joined,
  started, refused, Phase, running, finished, removed, sent,
}
use runtime_rs.Cache.Flight.Progress.{single_flight}
use runtime_rs.Cache.Flight.Panics.{panic_poisons_key}

program : Unit {0}
unfolding Flight.new Flight.admit Flight.finish Flight.unlist Flight.send Flight.release Assoc.get
program = tt

abbrev k : Str
k = codes "k"

abbrev group : Flight
group = Flight.new 2

abbrev loading : Flight
loading = (Flight.admit k group).1

loading-Reach : Reach group loading
loading-Reach = next here (call k)

abbrev published : Flight
published =
    Flight.send 0 (loaded (7 ∷ []))
      (Flight.unlist 0 (loaded (7 ∷ [])) (Flight.finish 0 (some (loaded (7 ∷ []))) loading))

published-Reach : Reach group published
unfolding program
published-Reach =
    next
      (next (next loading-Reach (finishes 0 (some (loaded (7 ∷ []))) refl))
        (unlists 0 (loaded (7 ∷ [])) refl))
      (sends 0 (loaded (7 ∷ [])) refl)

abbrev first : ℕ
first = 0

single_flight_example : first ≡ first
unfolding program
single_flight_example = single_flight 2 first first loading-Reach refl refl refl

abbrev panicked : Flight
panicked = Flight.panic 0 loading

panic_poisons_key_example :
    (Flight.admit k panicked ≡ (joined 0, panicked)) × (borrow (panicked.phase 0) ≡ none)
unfolding program Flight.panic
panic_poisons_key_example = panic_poisons_key 2 0 (next loading-Reach (panics 0 refl)) refl here
