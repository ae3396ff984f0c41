-- ===== src/Gst/Handshake/Tests.antt =====
-- Two frames of two elements, of which one comes too late to be copied; the first texture is torn.
use sys_snippets.Common.{ℕ, ◌≡◌, refl, List, [], ◌∷◌, Option, none, some}
use sys_snippets.Gst.Handshake.{Turn, streams, draws, run, setup}
use sys_snippets.Gst.Handshake.Whole.{
  Runs, place, StandsFor, Sub, offered, free, run-Runs, textures-Sub,
}

abbrev early : List ℕ
early = 1 ∷ 2 ∷ []

abbrev late : List ℕ
late = 3 ∷ 4 ∷ []

abbrev mixed : List Turn
mixed =
    draws
    ∷ streams early
    ∷ streams early
    ∷ streams early
    ∷ draws
    ∷ draws
    ∷ streams early
    ∷ draws
    ∷ draws
    ∷ draws
    ∷ streams late
    ∷ draws
    ∷ draws
    ∷ draws
    ∷ []

run-Runs_example :
    (o' : Option (List ℕ)) × Runs mixed
      (place none (setup (0 ∷ 0 ∷ [])))
      (place o' (run mixed (setup (0 ∷ 0 ∷ []))))
    × StandsFor 2 (run mixed (setup (0 ∷ 0 ∷ []))) o'
run-Runs_example =
    run-Runs 2 mixed (setup (0 ∷ 0 ∷ [])) none
      (
        tt,
        (refl, (refl, (refl, (tt, (tt, (refl, (tt, (tt, (tt, (refl, (tt, (tt, (tt, tt))))))))))))),
      )
      (free tt refl)

textures-Sub_example : Sub (run mixed (setup (0 ∷ 0 ∷ []))).textures (offered mixed)
textures-Sub_example =
    textures-Sub (0 ∷ 0 ∷ []) mixed (
      tt,
      (refl, (refl, (refl, (tt, (tt, (refl, (tt, (tt, (tt, (refl, (tt, (tt, (tt, tt))))))))))))),
    )

mixed_runs : (run mixed (setup (0 ∷ 0 ∷ []))).textures ≡ early ∷ []
unfolding run sys_snippets.Gst.Handshake.render sys_snippets.Gst.Handshake.update_texture
mixed_runs = refl

-- The first texture has an element from before the frame was copied, and one of the frame.
mixed_first : (run mixed (setup (0 ∷ 0 ∷ []))).first_texture ≡ some (0 ∷ 2 ∷ [])
unfolding run sys_snippets.Gst.Handshake.render sys_snippets.Gst.Handshake.update_texture
mixed_first = refl
