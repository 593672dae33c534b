-- ===== src/Trace/Log.antt =====
-- What a CoreTraceRecorder of apps/gateway/src/lib/coreTrace.ts writes.
use Prim.Native.String.{String}
use modelforge_ai.Base.{
  ℕ, ◌+◌, ◌≤◌, ◌<◌, ◌≡◌, refl, ap, subst, ◌∙◌, inl, inr, Bool, true, false, List, [], ◌∷◌, ◌++◌,
  arith, Bool-cases,
}
use modelforge_ai.Trace.Sessions.{TraceStatus, completed, failed, TraceEvent, TraceDb}
use modelforge_ai.Trace.Recorder.{
  CoreTraceRecorder, Writes, Report, reports, completes, fails, TraceEventInput, event, event_row,
  complete, fail, finish, close, report, report_all,
}

-- Events of the trace, with numbers that rise from beyond n to at most m.
abbrev pub Numbered : String → ℕ → List TraceEvent → ℕ → Type 0
Numbered trace n [] m = n ≤ m
Numbered trace n (e ∷ es) m =
    (e.trace_id ≡ trace) × (n < e.sequence) × Numbered trace e.sequence es m

Numbered-append :
    (trace : String) (n : ℕ) (xs : List TraceEvent) (m : ℕ) (ys : List TraceEvent) (k : ℕ)
    → Numbered trace n xs m
    → Numbered trace m ys k
    → Numbered trace n (xs ++ ys) k
Numbered-append trace n [] m [] k h l = omega arith
Numbered-append trace n [] m (y ∷ ys) k h (e, lt, l) = (e, omega arith, l)
Numbered-append trace n (x ∷ xs) m ys k (e, lt, h) l =
    (e, lt, Numbered-append trace x.sequence xs m ys k h l)

append-nil : {A : Type 0} (xs : List A) → xs ≡ xs ++ []
append-nil [] = refl
append-nil (x ∷ xs) = ap (λ ys. x ∷ ys) (append-nil xs)

append-append : {A : Type 0} (xs ys zs : List A) → (xs ++ ys) ++ zs ≡ xs ++ (ys ++ zs)
append-append [] ys zs = refl
append-append (x ∷ xs) ys zs = ap (λ us. x ∷ us) (append-append xs ys zs)

-- The events of the second are those of the first with numbered ones behind them.
abbrev pub Extends : CoreTraceRecorder → TraceDb → CoreTraceRecorder × TraceDb → Type 0
Extends r db (after, later) =
    (new : List TraceEvent) × ((later.events ≡ db.events ++ new)
      × Numbered r.trace_id r.sequence new after.sequence
      × (after.trace_id ≡ r.trace_id))

event-Extends :
    (input : TraceEventInput) (w : Writes) (r : CoreTraceRecorder) (db : TraceDb)
    → Extends r db (event input w (r, db))
unfolding event
event-Extends input w r db = elim (Bool-cases r.closed) [
  | inl closed ↦ simp closed ([], (append-nil db.events, omega arith, refl))
  | inr open_one ↦ elim (Bool-cases w.takes_event) [
    | inl takes ↦
        simp (open_one, takes)
          (
            event_row (record r { sequence = r.sequence + 1 }) input w.now ∷ [],
            (refl, (refl, omega arith, omega arith), refl),
          )
    | inr refuses ↦ simp (open_one, refuses) ([], (append-nil db.events, omega arith, refl))
  ]
]

closed-Extends :
    (r : CoreTraceRecorder) (db : TraceDb) (s : CoreTraceRecorder × TraceDb) (status : TraceStatus)
    (summary : String) (w : Writes)
    → Extends r db s
    → Extends r db (close status summary w s)
closed-Extends r db s status summary w (new, (e, h, t)) = elim (Bool-cases w.takes_session) [
  | inl takes ↦ rw takes (new, (e, h, t))
  | inr refuses ↦ rw refuses (new, (e, h, t))
]

finish-Extends :
    (status : TraceStatus) (input : TraceEventInput) (summary : String) (w : Writes)
    (r : CoreTraceRecorder) (db : TraceDb)
    → Extends r db (finish status input summary w (r, db))
finish-Extends status input summary w r db = elim (Bool-cases r.closed) [
  | inl closed ↦ simp closed ([], (append-nil db.events, omega arith, refl))
  | inr open_one ↦
      simp open_one
        (closed-Extends r db (event input w (r, db)) status summary w (event-Extends input w r db))
]

abbrev pub closes : Report → Bool
closes (reports input) = false
closes (completes summary) = true
closes (fails message) = true

module _ (message_json error_json : String → String) where
  report-Extends :
      (call : Report) (w : Writes) (r : CoreTraceRecorder) (db : TraceDb)
      → Extends r db (report message_json error_json call w (r, db))
  unfolding report complete fail
  report-Extends (reports input) w r db = event-Extends input w r db
  report-Extends (completes summary) w r db = finish-Extends completed _ summary w r db
  report-Extends (fails message) w r db = finish-Extends failed _ (error_json message) w r db

  -- Whatever the calls are, and whichever rows the database refuses, the events that a recorder writes go
  -- behind the others, are those of its trace, and have rising numbers, beyond the one that it had.
  pub report_all-Extends :
      (calls : List (Report × Writes)) (r : CoreTraceRecorder) (db : TraceDb)
      → Extends r db (report_all message_json error_json calls (r, db))
  unfolding report_all
  report_all-Extends [] r db = ([], (append-nil db.events, omega arith, refl))
  report_all-Extends ((call, w) ∷ calls) r db =
      let s = report message_json error_json call w (r, db) in
      let (new, (e, h, t)) = report-Extends call w r db in
      let last = (report_all message_json error_json calls s).0.sequence in
      let (newer, (f, k, u)) = report_all-Extends calls s.0 s.1 in
      (
        new ++ newer,
        (
          f ∙ ap (λ es. es ++ newer) e ∙ append-append db.events new newer,
          Numbered-append r.trace_id r.sequence new s.0.sequence newer last h
              (subst (λ trace. Numbered trace s.0.sequence newer last) t k),
          u ∙ t,
        ),
      )

  report-closed :
      (call : Report) (w : Writes) (r : CoreTraceRecorder) (db : TraceDb)
      → r.closed ≡ true
      → report message_json error_json call w (r, db) ≡ (r, db)
  unfolding report complete fail event
  report-closed (reports input) w r db h = simp h refl
  report-closed (completes summary) w r db h = simp h refl
  report-closed (fails message) w r db h = simp h refl

  report_all-shut :
      (calls : List (Report × Writes)) (r : CoreTraceRecorder) (db : TraceDb)
      → r.closed ≡ true
      → report_all message_json error_json calls (r, db) ≡ (r, db)
  unfolding report_all
  report_all-shut [] r db h = refl
  report_all-shut ((call, w) ∷ calls) r db h =
      ap (report_all message_json error_json calls) (report-closed call w r db h)
      ∙ report_all-shut calls r db h

  finish-closed :
      (status : TraceStatus) (input : TraceEventInput) (summary : String) (w : Writes)
      (s : CoreTraceRecorder × TraceDb)
      → (finish status input summary w s).0.closed ≡ true
  finish-closed status input summary w s = elim (Bool-cases s.0.closed) [
    | inl closed ↦ simp closed refl
    | inr open_one ↦ simp open_one refl
  ]

  report-closes :
      (call : Report) (w : Writes) (s : CoreTraceRecorder × TraceDb)
      → closes call ≡ true
      → (report message_json error_json call w s).0.closed ≡ true
  unfolding report complete fail
  report-closes (reports input) w s h = cc
  report-closes (completes summary) w s h = finish-closed completed _ summary w s
  report-closes (fails message) w s h = finish-closed failed _ (error_json message) w s

  -- What is called behind a completion or a failure, the first as well as any other, changes nothing.
  pub report_all-closed :
      (before after : List (Report × Writes)) (call : Report) (w : Writes)
      (s : CoreTraceRecorder × TraceDb)
      → closes call ≡ true
      → report_all message_json error_json (before ++ (call, w) ∷ after) s
        ≡ report_all message_json error_json (before ++ (call, w) ∷ []) s
  unfolding report_all
  report_all-closed [] after call w s h =
      let t = report message_json error_json call w s in
      report_all-shut after t.0 t.1 (report-closes call w s h)
  report_all-closed ((first, v) ∷ before) after call w s h =
      report_all-closed before after call w (report message_json error_json first v s) h
