-- ===== src/Websocket/Pumps/Order.antt =====
-- What a connection gets of the messages that `Send` takes (websocket/pumps.go, websocket/client.go).
use go_utilities.Base.{
  ◌≡◌, refl, sym, ◌∙◌, ap, subst, Bool, true, false, not, List, [], ◌∷◌, ◌++◌, if◌then◌else◌,
  Bool-cases, inl, inr,
}
use go_utilities.Base.Run.{returns, ◌>>=◌}
use go_utilities.Websocket.Client.{Message}
use go_utilities.Websocket.Client.Laws.{accepts, receive, send_lem, shut, close_lem}
use go_utilities.Websocket.Pumps.{
  Frame, text_frame, ping_frame, close_frame, Pumped, Wrote, Turn, sends, closes, receives, ticks,
  write_all, try_frame, stop, after_write, receive_turn, tick_turn, note_taken, turn, write_pump,
}
use mathlib.Core.List.{append_assoc, append-nil}

-- The messages among the frames, in order.
unfoldable pub texts : List Frame → List Message
texts [] = []
texts (text_frame m ∷ fs) = m ∷ texts fs
texts (ping_frame ∷ fs) = texts fs
texts (close_frame ∷ fs) = texts fs

texts-append : (fs gs : List Frame) → texts (fs ++ gs) ≡ texts fs ++ texts gs
unfolding texts
texts-append [] gs = refl
texts-append (text_frame m ∷ fs) gs = ap (◌∷◌ m) (texts-append fs gs)
texts-append (ping_frame ∷ fs) gs = texts-append fs gs
texts-append (close_frame ∷ fs) gs = texts-append fs gs

-- The messages `all` are those that were written, then those that were lost, then those left.
pub record Splits (frames : List Frame) (fine : Bool) (left all : List Message) : Type 0 where
  pub lost : List Message
  pub parts : all ≡ texts frames ++ (lost ++ left)
  pub none_lost : fine ≡ true → lost ≡ []

-- The buffer's mark agrees with the client's, and the messages that were taken are those that were
-- written, then, only where the pump has returned, some that were lost, then those in the buffer.
pub record InOrder (w : Pumped) : Type 0 where
  pub agree : w.client.send_closed ≡ w.client.is_closed
  pub order : Splits w.frames (not w.stopped) w.client.send w.taken

module _ (writes : List Frame → Bool) where
  one_more-texts :
      (fs : List Frame) (m : Message) (ms : List Message)
      → texts (fs ++ text_frame m ∷ []) ++ ms ≡ texts fs ++ m ∷ ms
  unfolding texts
  one_more-texts fs m ms =
      ap (λ t. t ++ ms) (texts-append fs (text_frame m ∷ [])) ∙ append_assoc (texts fs) (m ∷ []) ms

  write_all-Splits :
      (ms : List Message) (fs : List Frame)
      → Splits
          (write_all writes ms fs).frames
          (write_all writes ms fs).fine
          (write_all writes ms fs).left
          (texts fs ++ ms)
  unfolding write_all
  write_all-Splits [] fs = record { lost = []; parts = refl; none_lost = λ e. refl }
  write_all-Splits (m ∷ ms) fs = elim (Bool-cases (writes fs)) [
    | inl good ↦
        let s = write_all-Splits ms (fs ++ text_frame m ∷ []) in
        rw good (record {
          lost = s.lost;
          parts = sym (one_more-texts fs m ms) ∙ s.parts;
          none_lost = s.none_lost;
        })
    | inr bad ↦ rw bad (record { lost = m ∷ []; parts = refl; none_lost = λ e. absurd (apart e) })
  ]
    where
      apart : false ≡ true → ⊥
      apart e = cc

  -- A frame that is no text.
  unread-Splits :
      (f : Frame) (fs : List Frame) (fine : Bool) (left all : List Message)
      → texts (f ∷ []) ≡ []
      → Splits fs fine left all
      → Splits (fs ++ f ∷ []) fine left all
  unread-Splits f fs fine left all h s = record {
    lost = s.lost;
    parts =
        s.parts
        ∙ ap (λ t. t ++ (s.lost ++ left))
            (sym (texts-append fs (f ∷ []) ∙ ap (λ t. texts fs ++ t) h ∙ append-nil (texts fs)));
    none_lost = s.none_lost;
  }

  stopped-Splits :
      (fs : List Frame) (fine : Bool) (left all : List Message)
      → Splits fs fine left all
      → Splits fs false left all
  stopped-Splits fs fine left all s = record {
    lost = s.lost;
    parts = s.parts;
    none_lost = λ e. absurd (apart e);
  }
    where
      apart : false ≡ true → ⊥
      apart e = cc

  taken-Splits :
      (fs : List Frame) (fine : Bool) (left all : List Message) (m : Message)
      → Splits fs fine left all
      → Splits fs fine (left ++ m ∷ []) (all ++ m ∷ [])
  taken-Splits fs fine left all m s = record {
    lost = s.lost;
    parts =
        ap (λ t. t ++ m ∷ []) s.parts
        ∙ append_assoc (texts fs) (s.lost ++ left) (m ∷ [])
        ∙ ap (λ t. texts fs ++ t) (append_assoc s.lost left (m ∷ []));
    none_lost = s.none_lost;
  }

  sends-InOrder :
      (m : Message) (w : Pumped)
      → InOrder w
      → InOrder (record w {
        client = receive m w.client;
        taken = note_taken writes m (accepts w.client) w.taken;
      })
  sends-InOrder m w i = elim (Bool-cases (accepts w.client)) [
    | inl yes' ↦ rw yes' (record {
      agree = i.agree;
      order = taken-Splits w.frames (not w.stopped) w.client.send w.taken m i.order;
    })
    | inr no' ↦ rw no' i
  ]

  closes-InOrder : (w : Pumped) → InOrder w → InOrder (record w { client = shut w.client })
  closes-InOrder w i = elim (Bool-cases w.client.is_closed) [
    | inl before ↦ rw before (record { agree = i.agree ∙ before; order = i.order })
    | inr now ↦ rw now (record { agree = refl; order = i.order })
  ]

  ticks-InOrder : (w : Pumped) → InOrder w → w.stopped ≡ false → InOrder (tick_turn writes w)
  unfolding texts
  ticks-InOrder w i on = elim (Bool-cases (writes w.frames)) [
    | inl good ↦ rw good (record {
      agree = i.agree;
      order = unread-Splits ping_frame w.frames (not w.stopped) w.client.send w.taken refl i.order;
    })
    | inr bad ↦ rw bad (record {
      agree = i.agree;
      order = stopped-Splits w.frames (not w.stopped) w.client.send w.taken i.order;
    })
  ]

  -- An end of the channel, whether or not the frame that says so is written.
  closed-InOrder :
      (w : Pumped)
      → InOrder w
      → InOrder (stop writes (record w { frames = try_frame writes close_frame w.frames }))
  unfolding texts
  closed-InOrder w i = record {
    agree = i.agree;
    order = elim (Bool-cases (writes w.frames)) [
      | inl good ↦ rw good (
          stopped-Splits _ _ w.client.send w.taken
            (unread-Splits close_frame w.frames (not w.stopped) w.client.send w.taken refl i.order))
      | inr bad ↦ rw bad (stopped-Splits w.frames (not w.stopped) w.client.send w.taken i.order)
    ];
  }

  after_write-InOrder :
      (o : Wrote) (w : Pumped)
      → w.client.send_closed ≡ w.client.is_closed
      → w.stopped ≡ false
      → Splits o.frames o.fine o.left w.taken
      → InOrder (after_write writes o w)
  after_write-InOrder o w agree on s = elim (Bool-cases o.fine) [
    | inl good ↦ rw good (record {
      agree = agree;
      order = record { lost = s.lost; parts = s.parts; none_lost = λ e. s.none_lost good };
    })
    | inr bad ↦
        rw bad (record { agree = agree; order = stopped-Splits o.frames o.fine o.left w.taken s })
  ]

  receives-InOrder :
      (queue : List Message) (w : Pumped)
      → w.client.send ≡ queue
      → InOrder w
      → w.stopped ≡ false
      → InOrder (receive_turn writes queue w)
  receives-InOrder [] w q i on = elim (Bool-cases w.client.send_closed) [
    | inl ended ↦ subst end_or_wait (sym ended) (closed-InOrder w i)
    | inr going ↦ subst end_or_wait (sym going) i
  ]
    where
      end_or_wait : Bool → Type 0
      end_or_wait ended = InOrder (
          if ended
          then stop writes (record w { frames = try_frame writes close_frame w.frames })
          else w)
  receives-InOrder (m ∷ ms) w q i on =
      let s = write_all-Splits (m ∷ ms) w.frames in
      after_write-InOrder (write_all writes (m ∷ ms) w.frames) w i.agree on
        (record { lost = s.lost; parts = all_read ∙ s.parts; none_lost = s.none_lost })
    where
      all_read : w.taken ≡ texts w.frames ++ m ∷ ms
      all_read =
          i.order.parts
          ∙ ap (λ l. texts w.frames ++ (l ++ w.client.send)) (i.order.none_lost (ap not on))
          ∙ ap (λ l. texts w.frames ++ l) q

  turn-InOrder :
      (t : Turn) (w : Pumped) → InOrder w → (v : Pumped) × (turn writes t w ≡ returns v) × InOrder v
  unfolding turn
  turn-InOrder (sends m) w i = (
    _,
    ap
        (λ r.
          r >>= λ s. returns (record w { client = s.0; taken = note_taken writes m s.1 w.taken }))
        (send_lem w.client m i.agree),
    sends-InOrder m w i,
  )
  turn-InOrder closes w i = (
    _,
    ap (λ r. r >>= λ c. returns (record w { client = c })) (close_lem w.client i.agree),
    closes-InOrder w i,
  )
  turn-InOrder receives w i = elim (Bool-cases w.stopped) [
    | inl off ↦ (w, rw off refl, i)
    | inr on ↦ (
      receive_turn writes w.client.send w,
      rw on refl,
      receives-InOrder w.client.send w refl i on,
    )
  ]
  turn-InOrder ticks w i = elim (Bool-cases w.stopped) [
    | inl off ↦ (w, rw off refl, i)
    | inr on ↦ (tick_turn writes w, rw on refl, ticks-InOrder w i on)
  ]

  -- From a client whose buffer is in order on, for all turns, no turn panics, and the messages on the
  -- connection are the first of those that Send took, each once and in that order. Those that are not
  -- on it are in the buffer, but for some that are lost once the pump has returned.
  pub write_pump-InOrder :
      (ts : List Turn) (w : Pumped)
      → InOrder w
      → (v : Pumped) × (write_pump writes ts w ≡ returns v) × InOrder v
  unfolding write_pump
  write_pump-InOrder [] w i = (w, refl, i)
  write_pump-InOrder (t ∷ ts) w i =
      let (u, e, j) = turn-InOrder t w i in
      let (v, f, k) = write_pump-InOrder ts u j in
      (v, ap (λ r. r >>= write_pump writes ts) e ∙ f, k)
