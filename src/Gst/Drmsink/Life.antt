-- ===== src/Gst/Drmsink/Life.antt =====
-- `setup` and `stop` of gst/gst-drm/drmsink.c, and what comes behind them.
use sys_snippets.Common.{
  ℕ, ◌*◌, ◌^◌, ◌≤◌, ◌<◌, ◌≡◌, List, ◌++◌, Bool, true, false, none, some, length, All, arith,
}
use sys_snippets.Gst.Drmsink.{Sink, ok, undefined, u32, Buffer, render, setup, setcaps, stop}
use sys_snippets.Gst.Drmsink.Copy.{Line, lines}
use sys_snippets.Gst.Drmsink.Pair.{Pair, Shot, play, last_shown, picture, sink, IsShot, IsShaped}
use sys_snippets.Gst.Drmsink.Frames.{play_lem}

-- Two mappings with room for a frame, from libkms.
abbrev pub mapped : ℕ → List Line → List ℕ → Buffer
mapped pitch ls behind = record { works = true; pitch = pitch; bytes = lines ls ++ behind }

-- A sink that is not enabled, which `setcaps` sets up and which then gets any frames of that size: the
-- crtc shows the whole last frame that drmModeSetCrtc took, none if it took none. The mappings have room
-- for a frame; nothing fails in `setup`.
pub setcaps-play :
    (w h hdisplay vdisplay s0 s1 : ℕ) (a b : List Line) (ba bb : List ℕ) (xs : List Shot) (s : Sink)
    → s.enabled ≡ false
    → s.screen ≡ none
    → w ≤ hdisplay
    → h ≤ vdisplay
    → h * (4 * w) < 2 ^ 32
    → IsShaped (4 * w) s0 a
    → IsShaped (4 * w) s1 b
    → length a ≡ h
    → length b ≡ h
    → length (lines a) < 2 ^ 32
    → length (lines b) < 2 ^ 32
    → All (IsShot w h s0 s1) xs
    → (t : Sink) × (q : Pair) × (setcaps hdisplay vdisplay w h
          (mapped s0 a ba)
          (mapped s1 b bb)
          true
          s
        ≡ ok t)
      × (play xs t ≡ some (sink w h s0 s1 q))
      × (picture q ≡ last_shown xs none)
unfolding setcaps setup
setcaps-play w h hdisplay vdisplay s0 s1 a b ba bb xs s off dark wide high small fa fb ca cb la lb
      f =
    let p : Pair = record {
      first = a;
      second = b;
      behind_first = ba;
      behind_second = bb;
      next = false;
      visible = none;
    } in
    let r =
      play_lem w h s0 s1 small xs p
        (record {
          first_shaped = fa;
          second_shaped = fb;
          first_count = ca;
          second_count = cb;
          first_small = la;
          second_small = lb;
          alternates = tt;
        })
        f in
    (sink w h s0 s1 p, r.0, ground arith, r.1, r.3)

-- `stop` leaves the sink enabled: after it `setcaps` sets nothing up, and the next frame of at least the
-- old size is copied into a buffer that is gone.
pub stop-setcaps-render :
    (hdisplay vdisplay w h : ℕ) (b0 b1 : Buffer) (crtc_got mode_valid restored works : Bool)
    (buffer : List ℕ) (s : Sink)
    → s.enabled ≡ true
    → s.saved ≡ true
    → u32 (4 * s.width * s.height) ≤ length buffer
    → (t : Sink) × (stop mode_valid restored s ≡ ok t)
      × (setcaps hdisplay vdisplay w h b0 b1 crtc_got t ≡ ok t)
      × (render buffer works t ≡ undefined)
unfolding stop setcaps render
stop-setcaps-render hdisplay vdisplay w h b0 b1 crtc_got mode_valid restored works buffer s on kept
      size =
    (record s { frame = none; screen = none }, ground arith, ground arith, ground arith)
