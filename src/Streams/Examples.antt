-- ===== src/Streams/Examples.antt =====
-- Streams whose other side goes.
use hiddify_core.Prelude.{ℕ, List, [], ◌∷◌}
use hiddify_core.Streams.{core_info, Signal, context_done, stop_received, timeout, emitted}
use hiddify_core.Streams.Ending.{Streamed, stream-Streamed}

abbrev signals : List (Signal ℕ)
signals = emitted 1 ∷ timeout ∷ stop_received ∷ emitted 2 ∷ context_done ∷ []

stream-Streamed_example : Streamed core_info signals
stream-Streamed_example = stream-Streamed core_info signals
