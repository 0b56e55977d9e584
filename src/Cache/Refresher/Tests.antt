-- ===== src/Cache/Refresher/Tests.antt =====
-- Cache.Refresher at concrete inputs.
use runtime_rs.Base.{◌≡◌, refl, true, false, arith}
use runtime_rs.Cache.Refresher
use runtime_rs.Cache.Refresher.{Refresher, goes, counts_out, drains}
use runtime_rs.Cache.Refresher.Drain.{drained_for_good, panic_blocks_drain}

program : Unit {0}
unfolding Refresher.new Refresher.go Refresher.count_out Refresher.drop_permit Refresher.close
    Refresher.is_idle
program = tt

abbrev at_work : Refresher
at_work = (Refresher.go false (Refresher.new 1)).1

at_work-Reach : Refresher.Reach (Refresher.new 1) at_work
at_work-Reach = Refresher.next Refresher.here (goes false)

abbrev idle : Refresher
idle = (Refresher.close (Refresher.new 1)).1

idle-Reach : Refresher.Reach (Refresher.new 1) idle
idle-Reach = Refresher.next Refresher.here drains

drained_for_good_example :
    ((Refresher.go false idle).1.is_closed ≡ true)
    × ((Refresher.go false idle).1.running ≡ 0)
    × ((Refresher.go false idle).1.working ≡ 0)
unfolding program
drained_for_good_example =
    drained_for_good 1 idle-Reach refl refl (Refresher.next Refresher.here (goes false))

abbrev closing : Refresher
closing = (Refresher.close at_work).1

closing-Reach : Refresher.Reach (Refresher.new 1) closing
closing-Reach = Refresher.next at_work-Reach drains

panic_blocks_drain_example : Refresher.is_idle (Refresher.panic at_work) ≡ false
unfolding program Refresher.panic
panic_blocks_drain_example = panic_blocks_drain 1 at_work-Reach (ground arith) Refresher.here
