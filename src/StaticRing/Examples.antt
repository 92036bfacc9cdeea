-- ===== src/StaticRing/Examples.antt =====
-- The frame queue of a video: two slots, so it holds one frame.
use video_player_core.Base.{ℕ, ◌^◌, ◌-◌, ◌≡◌, refl, true, false, none, some, List, [], ◌∷◌, arith}
use video_player_core.Fifo
use video_player_core.Fifo.{Op, put, get, Reply, accepted, got}
use video_player_core.StaticRing.{StaticRing, init, run}
use video_player_core.StaticRing.Agree.{run-init_refines}

abbrev frames : List (Op ℕ)
frames = put 1 ∷ put 2 ∷ get ∷ get ∷ put 3 ∷ get ∷ []

run-init_refines_example : run (2 ^ 1) (init (0 ∷ 0 ∷ [])) frames ≡ Fifo.run (2 ^ 1 - 1) [] frames
run-init_refines_example = run-init_refines 1 (0 ∷ 0 ∷ []) frames (omega arith) (omega arith)

-- It refuses the second frame, and goes round.
Fifo_run-frames :
    Fifo.run 1 [] frames
    ≡ accepted true ∷ accepted false ∷ got (some 1) ∷ got none ∷ accepted true ∷ got (some 3) ∷ []
unfolding Fifo.run Fifo.push Fifo.pop
Fifo_run-frames = refl

abbrev one_frame : StaticRing ℕ
one_frame = record { write_pos = 0; read_pos = 1; buf = 4 ∷ 5 ∷ [] }
