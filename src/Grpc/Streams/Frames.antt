-- ===== src/Grpc/Streams/Frames.antt =====
-- What copy_io sends.
use silverwind.Prelude.{
  ℕ, ◌≡◌, refl, sym, ap, ◌∙◌, ◌≢◌, false, Option, none, some, List, [], ◌∷◌, ◌++◌, map, All,
  Outcome, ok, err, panic, Done, string_eq,
}
use silverwind.External.{Http, Codecs}
use silverwind.Prelude.Loops.{append_assoc, append_nil, All-append, and_then-keeps}
use silverwind.Grpc.Streams.{
  RecvStream, SendStream, Frame, Frames, copy_io, copy_chunk, copy_chunks, copy_trailers, pushed,
}
use silverwind.Grpc.Streams.Frame.{data_frame, trailers_frame}

module _ (http : Http) (codecs : Codecs) where
  -- The frame does not end its stream.
  abbrev pub IsOpen : Frame http codecs → Type 0
  IsOpen (data_frame bytes end_of_stream) = end_of_stream ≡ false
  IsOpen (trailers_frame header) = ⊥

  AreOpen : Frames http codecs → Type 0
  AreOpen = All IsOpen

  pushed-AreOpen :
      (frame : Frame http codecs) (sent : Frames http codecs) (answer : Outcome Done)
      → IsOpen frame
      → AreOpen sent
      → AreOpen (pushed http codecs frame sent answer).0
  unfolding pushed AreOpen
  pushed-AreOpen frame sent (ok u) h k = All-append IsOpen sent (frame ∷ []) k (h, tt)
  pushed-AreOpen frame sent (err e) h k = k
  pushed-AreOpen frame sent panic h k = k

  copy_chunk-AreOpen :
      (s : SendStream http codecs) (chunk : Outcome codecs.Bytes) (sent : Frames http codecs)
      → AreOpen sent
      → AreOpen (copy_chunk http codecs s chunk sent).0
  unfolding copy_chunk
  copy_chunk-AreOpen s (ok bytes) sent h =
      and_then-keeps AreOpen _ _ (pushed-AreOpen (data_frame bytes false) sent _ refl h) λ t k. k
  copy_chunk-AreOpen s (err e) sent h = h
  copy_chunk-AreOpen s panic sent h = h

  copy_chunks-AreOpen :
      (s : SendStream http codecs) (chunks : List (Outcome codecs.Bytes))
      (sent : Frames http codecs)
      → AreOpen sent
      → AreOpen (copy_chunks http codecs s chunks sent).0
  unfolding copy_chunks
  copy_chunks-AreOpen s [] sent h = h
  copy_chunks-AreOpen s (chunk ∷ chunks) sent h =
      and_then-keeps AreOpen _ _ (copy_chunk-AreOpen s chunk sent h) (copy_chunks-AreOpen s chunks)

  copy_trailers-AreOpen :
      (s : SendStream http codecs) (trailers : Outcome (Option http.HeaderMap))
      (sent : Frames http codecs)
      → ((header : http.HeaderMap) → trailers ≢ ok (some header))
      → AreOpen sent
      → AreOpen (copy_trailers http codecs s trailers sent).0
  unfolding copy_trailers
  copy_trailers-AreOpen s (ok (some header)) sent never h = absurd (never header refl)
  copy_trailers-AreOpen s (ok none) sent never h = h
  copy_trailers-AreOpen s (err e) sent never h = h
  copy_trailers-AreOpen s panic sent never h = h

  -- A copy of a body without trailers sends no frame that ends its stream, whatever becomes of the
  -- frames that it sends.
  pub copy_io-IsOpen :
      (send_stream : SendStream http codecs) (recv_stream : RecvStream http codecs)
      → ((header : http.HeaderMap) → recv_stream.trailers ≢ ok (some header))
      → All IsOpen (copy_io http codecs send_stream recv_stream).0
  unfolding copy_io AreOpen
  copy_io-IsOpen s recv never =
      and_then-keeps AreOpen _ _ (copy_chunks-AreOpen s recv.chunks [] tt)
        λ sent. copy_trailers-AreOpen s recv.trailers sent never

  -- A stream that takes every frame.
  abbrev pub IsAccepting : SendStream http codecs → Type 0
  IsAccepting s =
      ((sent : Frames http codecs) (frame : Frame http codecs) → s.send sent frame ≡ ok tt)
      × ((sent : Frames http codecs) (n : ℕ) → s.release_capacity sent n ≡ ok tt)

  abbrev pub copied : List codecs.Bytes → Frames http codecs
  copied = map (λ bytes. data_frame bytes false)

  copy_chunks-copied :
      (s : SendStream http codecs) (bodies : List codecs.Bytes) (sent : Frames http codecs)
      → IsAccepting s
      → copy_chunks http codecs s (map ok bodies) sent ≡ (sent ++ copied bodies, ok tt)
  unfolding copy_chunks copy_chunk pushed
  copy_chunks-copied s [] sent h = ap (λ l. (l, ok tt)) (sym (append_nil sent))
  copy_chunks-copied s (bytes ∷ bodies) sent h = rw (h.0 sent (data_frame bytes false)) (
      rw (h.1 (sent ++ data_frame bytes false ∷ []) (codecs.size bytes)) (
        copy_chunks-copied s bodies (sent ++ data_frame bytes false ∷ []) h
        ∙ ap (λ l. (l, ok tt)) (append_assoc sent (data_frame bytes false) [] (copied bodies))))

  abbrev pub last_frames : Option http.HeaderMap → Frames http codecs
  last_frames none = []
  last_frames (some header) = trailers_frame header ∷ []

  -- If every frame is taken, a copy of a body that comes whole sends its chunks in their order, and
  -- then the trailers, if there are any.
  copy_io-copied :
      (s : SendStream http codecs) (bodies : List codecs.Bytes) (trailers : Option http.HeaderMap)
      → IsAccepting s
      → copy_io http codecs s (record { chunks = map ok bodies; trailers = ok trailers })
        ≡ (copied bodies ++ last_frames trailers, ok tt)
  unfolding copy_io copy_trailers pushed
  copy_io-copied s bodies none h =
      rw (copy_chunks-copied s bodies [] h)
        (ap (λ l. (l, ok tt)) (sym (append_nil (copied bodies))))
  copy_io-copied s bodies (some header) h =
      rw (copy_chunks-copied s bodies [] h) (rw (h.0 (copied bodies) (trailers_frame header)) refl)
