-- ===== src/Grpc/Frame/Tests.antt =====
-- Frames and paths at concrete inputs.
use runtime_rs.Base.{◌≡◌, true, some, [], ◌∷◌, arith}
use runtime_rs.Grpc.Frame.{frame, unframe}
use runtime_rs.Grpc.Frame.RoundTrip.{unframe-frame}

unframe-frame_example : unframe (frame true (7 ∷ 8 ∷ [])) ≡ some (true, 7 ∷ 8 ∷ [])
unframe-frame_example = unframe-frame true (7 ∷ 8 ∷ []) (ground arith)
