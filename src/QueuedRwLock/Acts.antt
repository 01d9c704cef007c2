-- ===== src/QueuedRwLock/Acts.antt =====
-- delete-me/queued_rw_lock.hpp: every move keeps what is asked of the requests.
use akl.Base.{ap, Bool-cases, ℕ, ◌<◌, ◌≡◌, inl, inr, refl, sym, ◌∙◌, ◌&&◌, ◌==◌, arith}
use akl.QueuedRwLock.{
  request_read, request_write, request_none, Place, outside, done, w_announce, w_check, w_take,
  w_unblock, w_mark, w_link, w_spin, w_assert, writing, w_leave, w_clear, w_next, w_class, w_count,
  w_pass, r_count, r_class, r_swap, r_link, r_spin, r_join, r_join_link, r_unblock, r_check,
  r_chain, r_chain_count, r_chain_pass, reading, r_leave, r_clear, r_next, r_hand, r_store, r_drop,
  r_take, r_wake, aborted, faulted, Lock, is, act,
}
use akl.QueuedRwLock.Invariant.{WakeOk, is_new, Requests}
use akl.QueuedRwLock.Change.{ok_of, predecessor}
use akl.QueuedRwLock.Writes.{unblock-Requests}
use akl.QueuedRwLock.Moves.{
  gone, then_mark, then_link, then_unblock, then_entitle, then_pass, either, by_next, gone_swap,
  joins, goto-entitled,
}

module _ (padding : ℕ) (sound : padding ≡ 0) where
  pub act-Requests :
      (p : Place) (i : ℕ) (m : Lock)
      → Requests m.arrived m.requests
      → i < m.arrived
      → (m.requests i).place ≡ p
      → WakeOk m p
      → Requests m.arrived (act padding p i m).requests
  unfolding act
  act-Requests outside i m rs l e w = rs
  act-Requests done i m rs l e w = rs
  act-Requests aborted i m rs l e w = rs
  act-Requests faulted i m rs l e w = rs
  act-Requests w_announce i m rs l e w =
      let ok = ok_of w_announce m.arrived i m.requests rs l e in
      gone m.arrived i m.requests w_announce _ rs l e (ground (arith, (rs.own i l).kind))
  act-Requests w_check i m rs l e w =
      let ok = ok_of w_check m.arrived i m.requests rs l e in
      gone m.arrived i m.requests w_check _ rs l e (ground (arith, (rs.own i l).kind))
  act-Requests w_take i m rs l e w =
      let ok = ok_of w_take m.arrived i m.requests rs l e in
      gone m.arrived i m.requests w_take _ rs l e (ground (arith, (rs.own i l).kind))
  act-Requests w_assert i m rs l e w =
      let ok = ok_of w_assert m.arrived i m.requests rs l e in
      gone m.arrived i m.requests w_assert _ rs l e (ground (arith, (rs.own i l).kind))
  act-Requests writing i m rs l e w =
      let ok = ok_of writing m.arrived i m.requests rs l e in
      gone m.arrived i m.requests writing _ rs l e (ground (arith, (rs.own i l).kind))
  act-Requests w_class i m rs l e w =
      let ok = ok_of w_class m.arrived i m.requests rs l e in
      by_next m.arrived i (m.requests i).next _ _ (rs.own i l).next (λ h. absurd (ok.0.1 h))
        (λ some_next _. gone m.arrived i m.requests w_class _ rs l e (ground arith))
  act-Requests w_count i m rs l e w =
      let ok = ok_of w_count m.arrived i m.requests rs l e in
      gone m.arrived i m.requests w_count _ rs l e (ground (arith, (rs.own i l).kind))
  act-Requests r_count i m rs l e w =
      let ok = ok_of r_count m.arrived i m.requests rs l e in
      gone m.arrived i m.requests r_count _ rs l e (ground (arith, (rs.own i l).kind))
  act-Requests r_check i m rs l e w =
      let ok = ok_of r_check m.arrived i m.requests rs l e in
      gone m.arrived i m.requests r_check _ rs l e (ground (arith, (rs.own i l).kind))
  act-Requests r_chain_count i m rs l e w =
      let ok = ok_of r_chain_count m.arrived i m.requests rs l e in
      gone m.arrived i m.requests r_chain_count _ rs l e (ground (arith, (rs.own i l).kind))
  act-Requests reading i m rs l e w =
      let ok = ok_of reading m.arrived i m.requests rs l e in
      gone m.arrived i m.requests reading _ rs l e (ground (arith, (rs.own i l).kind))
  act-Requests r_hand i m rs l e w =
      let ok = ok_of r_hand m.arrived i m.requests rs l e in
      gone m.arrived i m.requests r_hand _ rs l e (ground (arith, (rs.own i l).kind))
  act-Requests r_drop i m rs l e w =
      let ok = ok_of r_drop m.arrived i m.requests rs l e in
      gone m.arrived i m.requests r_drop _ rs l e (ground (arith, (rs.own i l).kind))
  act-Requests r_take i m rs l e w =
      let ok = ok_of r_take m.arrived i m.requests rs l e in
      gone m.arrived i m.requests r_take _ rs l e (ground (arith, (rs.own i l).kind))
  act-Requests (r_class p) i m rs l e w =
      let ok = ok_of (r_class p) m.arrived i m.requests rs l e in
      elim (Bool-cases ((m.requests p).lockclass == request_write)) [
        | inl b ↦ rw b (gone m.arrived i m.requests (r_class p) (r_link p) rs l e (ground arith))
        | inr b ↦
            let kind = (rs.own p (omega arith)).kind in
            rw b (gone_swap m.arrived p i m.requests rs l e (ground arith))
      ]
  act-Requests w_unblock i m rs l e w =
      let ok = ok_of w_unblock m.arrived i m.requests rs l e in
      then_unblock m.arrived i m.requests w_unblock w_spin rs l e (ground arith) ok.0.1
  act-Requests r_unblock i m rs l e w =
      let ok = ok_of r_unblock m.arrived i m.requests rs l e in
      then_unblock m.arrived i m.requests r_unblock r_check rs l e (ground arith) ok.0.1
  act-Requests (w_mark p) i m rs l e w =
      let ok = ok_of (w_mark p) m.arrived i m.requests rs l e in
      then_mark m.arrived i m.requests (w_mark p) (w_link p) rs l e (ground arith) p request_write
        ok.0.1 refl refl (sym ok.0.0)
  act-Requests (w_link p) i m rs l e w =
      let ok = ok_of (w_link p) m.arrived i m.requests rs l e in
      then_link m.arrived i m.requests (w_link p) w_spin rs l e (ground arith) p (ground arith)
  act-Requests (r_link p) i m rs l e w =
      let ok = ok_of (r_link p) m.arrived i m.requests rs l e in
      then_link m.arrived i m.requests (r_link p) r_spin rs l e (ground arith) p (ground arith)
  act-Requests (r_join_link p) i m rs l e w =
      let ok = ok_of (r_join_link p) m.arrived i m.requests rs l e in
      then_link m.arrived i m.requests (r_join_link p) r_unblock rs l e (ground arith) p
        (ground arith)
  act-Requests w_spin i m rs l e w =
      let ok = ok_of w_spin m.arrived i m.requests rs l e in
      either m.arrived (m.requests i).blocked _ _ (λ _. rs)
        (λ h.
          let let_in = (rs.own i l).unblocked h in
          gone m.arrived i m.requests w_spin w_assert rs l e (ground arith))
  act-Requests r_spin i m rs l e w =
      let ok = ok_of r_spin m.arrived i m.requests rs l e in
      either m.arrived (m.requests i).blocked _ _ (λ _. rs)
        (λ h.
          let let_in = (rs.own i l).unblocked h in
          gone m.arrived i m.requests r_spin r_check rs l e (ground arith))
  act-Requests (r_join p) i m rs l e w =
      let ok = ok_of (r_join p) m.arrived i m.requests rs l e in
      gone m.arrived i m.requests (r_join p) _ rs l e (ground (arith, (rs.own i l).kind))
  act-Requests w_leave i m rs l e w =
      let ok = ok_of w_leave m.arrived i m.requests rs l e in
      by_next m.arrived i (m.requests i).next _ _ (rs.own i l).next
        (λ _. gone m.arrived i m.requests w_leave w_clear rs l e (ground arith))
        (λ some_next _. gone m.arrived i m.requests w_leave w_next rs l e (ground arith))
  act-Requests r_leave i m rs l e w =
      let ok = ok_of r_leave m.arrived i m.requests rs l e in
      by_next m.arrived i (m.requests i).next _ _ (rs.own i l).next
        (λ _. gone m.arrived i m.requests r_leave r_clear rs l e (ground arith))
        (λ some_next _. gone m.arrived i m.requests r_leave r_next rs l e (ground arith))
  act-Requests w_clear i m rs l e w =
      let ok = ok_of w_clear m.arrived i m.requests rs l e in
      either m.arrived (is i m.tail) _ _
        (λ _. gone m.arrived i m.requests w_clear done rs l e (ground arith))
        (λ _. gone m.arrived i m.requests w_clear w_next rs l e (ground arith))
  act-Requests r_clear i m rs l e w =
      let ok = ok_of r_clear m.arrived i m.requests rs l e in
      either m.arrived (is i m.tail) _ _
        (λ _. gone m.arrived i m.requests r_clear r_drop rs l e (ground arith))
        (λ _. gone m.arrived i m.requests r_clear r_next rs l e (ground arith))
  act-Requests w_next i m rs l e w =
      let ok = ok_of w_next m.arrived i m.requests rs l e in
      by_next m.arrived i (m.requests i).next _ _ (rs.own i l).next (λ _. rs)
        (λ some_next _. gone m.arrived i m.requests w_next w_class rs l e (ground arith))
  act-Requests r_next i m rs l e w =
      let ok = ok_of r_next m.arrived i m.requests rs l e in
      by_next m.arrived i (m.requests i).next _ _ (rs.own i l).next (λ _. rs)
        (λ some_next _. gone m.arrived i m.requests r_next r_hand rs l e (ground arith))
  act-Requests r_chain i m rs l e w =
      let ok = ok_of r_chain m.arrived i m.requests rs l e in
      by_next m.arrived i (m.requests i).next _ _ (rs.own i l).next (λ _. rs)
        (λ some_next _. gone m.arrived i m.requests r_chain r_chain_count rs l e (ground arith))
  act-Requests w_pass i m rs l e w =
      let ok = ok_of w_pass m.arrived i m.requests rs l e in
      by_next m.arrived i (m.requests i).next _ _ (rs.own i l).next (λ h. absurd (ok.0.1 h))
        (λ some_next _.
          then_pass m.arrived i m.requests w_pass done rs l e (ground arith) (ok.1 refl) (λ _. refl)
            (λ _. refl))
  act-Requests r_chain_pass i m rs l e w =
      let ok = ok_of r_chain_pass m.arrived i m.requests rs l e in
      by_next m.arrived i (m.requests i).next _ _ (rs.own i l).next (λ h. absurd (ok.0.2 h))
        (λ some_next more.
          let pair = rs.pair i more in
          then_pass m.arrived i m.requests r_chain_pass reading rs l e (ground arith) (ok.1 refl)
            (λ h. absurd (omega (arith, ok.0.0))) (λ h. absurd (omega (arith, pair.reads ok.0.1))))
  act-Requests r_store i m rs l e w =
      let ok = ok_of r_store m.arrived i m.requests rs l e in
      by_next m.arrived i (m.requests i).next _ _ (rs.own i l).next (λ h. absurd (ok.0.2 h))
        (λ some_next _.
          then_entitle m.arrived i m.requests r_store r_drop rs l e (ground arith) (ok.1 refl)
            (λ h. absurd (omega (arith, ok.0.0))) (λ _. refl))
  act-Requests (r_swap p) i m rs l e w =
      let ok = ok_of (r_swap p) m.arrived i m.requests rs l e in
      either m.arrived
        ((m.requests p).blocked && (m.requests p).successor_class == request_none && padding == 0) _
        _
        (λ _.
          then_mark m.arrived i m.requests (r_swap p) (r_link p) rs l e (ground arith) p
            request_read ok.0.1 refl refl (sym ok.0.0))
        (λ h.
          let new = (predecessor m.arrived p i m.requests rs ok.0.1 l).new (ap is_new e) in
          let free = (rs.own p (omega arith)).unblocked in
          joins m.arrived p i m.requests rs l e (ground arith))
  act-Requests (r_wake x) i m rs l e w =
      let ok = ok_of (r_wake x) m.arrived i m.requests rs l e in
      unblock-Requests m.arrived x _
        (gone m.arrived i m.requests (r_wake x) done rs l e (ground arith))
        (goto-entitled i x done m.requests ∙ w.1)
