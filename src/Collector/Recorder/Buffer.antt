-- ===== src/Collector/Recorder/Buffer.antt =====
-- No kept reading is lost or reordered between the buffer and the store, whatever flushes fail and
-- whatever comes in while one waits.
use superviseur.Prelude.{
  ℕ, ◌-◌, ◌≤◌, ◌≡◌, refl, sym, ◌∙◌, ap, Bool, true, false, ◌||◌, Option, none, some, List, [], ◌∷◌,
  ◌++◌, append-nil, append_assoc, arith, nat_eq, length, length-append, length-drop, drop, take,
  take-append-drop, is_some, if◌then◌else◌, Bool-cases, inl, inr,
}
use superviseur.Prelude.Dict.{lookup}
use superviseur.Collector.Registry.{PointState, Reading}
use superviseur.Collector.Recorder.{
  Recorder, max_buffered_rows, should_store, handle, record_found, begin_flush, is_idle, end_flush,
  end_taken, take_last,
}

-- What happens to a recorder between two waits.
pub data Event : Type 0 where
  reading : Reading → ℕ → Event
  flush_begins : Event
  flush_ends : Bool → Event

unfoldable pub step : Event → Recorder → Recorder
step (reading r now) s = handle r now s
step flush_begins s = begin_flush s
step (flush_ends done) s = end_flush done s

unfoldable pub run : List Event → Recorder → Recorder
run [] s = s
run (e ∷ es) s = run es (step e s)

abbrev flying : Option (List Reading × List Reading) → List Reading
flying none = []
flying (some (samples, latest)) = samples

-- Every row that was kept, in the order of the readings: written, on its way, or buffered.
abbrev pub all_kept : Recorder → List Reading
all_kept s = s.written ++ (flying s.in_flight ++ s.samples)

abbrev kept_of : Option PointState → Reading → List Reading
kept_of none r = []
kept_of (some p) r = if should_store p r then r ∷ [] else []

-- The readings that `should_store` keeps, each judged at the moment when it comes in.
unfoldable pub kept_in : List Event → Recorder → List Reading
kept_in [] s = []
kept_in (reading r now ∷ es) s =
    kept_of (lookup r.point_id s.registry.points) r ++ kept_in es (step (reading r now) s)
kept_in (flush_begins ∷ es) s = kept_in es (step flush_begins s)
kept_in (flush_ends done ∷ es) s = kept_in es (step (flush_ends done) s)

record_found-kept :
    (p : Option PointState) (r : Reading) (now : ℕ) (s : Recorder)
    → all_kept (record_found p r now s) ≡ all_kept s ++ kept_of p r
unfolding record_found
record_found-kept none r now s = sym (append-nil (all_kept s))
record_found-kept (some p) r now s = elim (Bool-cases (should_store p r)) [
  | inl kept ↦ rw kept (simp append_assoc)
  | inr dropped ↦ rw dropped (simp append-nil)
]

begin_flush-kept : (s : Recorder) → all_kept (begin_flush s) ≡ all_kept s
unfolding begin_flush
begin_flush-kept s = elim (Bool-cases (is_some s.in_flight || is_idle s.samples s.latest)) [
  | inl held ↦ rw held
  | inr goes ↦
      let free : s.in_flight ≡ none = ground arith in
      rw goes (
        ap (λ f. s.written ++ f)
          (append-nil s.samples ∙ ap (λ f. flying f ++ s.samples) (sym free)))
]

take_last_all : (n : ℕ) (items : List Reading) → length items ≤ n → take_last n items ≡ items
take_last_all n items h =
    let none_out : length items - n ≡ 0 = omega arith in ap (λ k. drop k items) none_out

end_taken-kept :
    (f : Option (List Reading × List Reading)) (done : Bool) (s : Recorder)
    → s.in_flight ≡ f
    → length (flying f ++ s.samples) ≤ max_buffered_rows
    → all_kept (end_taken f done s) ≡ all_kept s
unfolding end_taken
end_taken-kept none done s e h = refl
end_taken-kept (some (xs, ys)) true s e h = rw e (append_assoc s.written xs s.samples)
end_taken-kept (some (xs, ys)) false s e h =
    ap (λ f. s.written ++ f)
      (take_last_all max_buffered_rows (xs ++ s.samples) h
        ∙ ap (λ f. flying f ++ s.samples) (sym e))

flying-le : (s : Recorder) → length (flying s.in_flight ++ s.samples) ≤ length (all_kept s)
flying-le s = omega (arith, length-append s.written (flying s.in_flight ++ s.samples))

run-kept :
    (es : List Event) (s : Recorder)
    → length (all_kept s ++ kept_in es s) ≤ max_buffered_rows
    → all_kept (run es s) ≡ all_kept s ++ kept_in es s
unfolding run kept_in step
run-kept [] s h = sym (append-nil (all_kept s))
run-kept (reading r now ∷ es) s h =
    let k = kept_of (lookup r.point_id s.registry.points) r in
    let s' = handle r now s in
    let one : all_kept s' ≡ all_kept s ++ k =
      unfold handle in record_found-kept (lookup r.point_id s.registry.points) r now s in
    let regroup : all_kept s' ++ kept_in es s' ≡ all_kept s ++ (k ++ kept_in es s') =
      ap (λ x. x ++ kept_in es s') one ∙ append_assoc (all_kept s) k (kept_in es s') in
    run-kept es s' (rw regroup h) ∙ regroup
run-kept (flush_begins ∷ es) s h =
    let s' = begin_flush s in
    let one : all_kept s' ≡ all_kept s = begin_flush-kept s in
    let regroup : all_kept s' ++ kept_in es s' ≡ all_kept s ++ kept_in es s' =
      ap (λ x. x ++ kept_in es s') one in
    run-kept es s' (rw regroup h) ∙ regroup
run-kept (flush_ends done ∷ es) s h =
    let s' = end_flush done s in
    let fits : length (flying s.in_flight ++ s.samples) ≤ max_buffered_rows =
      omega (arith, flying-le s, length-append (all_kept s) (kept_in es s')) in
    let one : all_kept s' ≡ all_kept s =
      unfold end_flush in end_taken-kept s.in_flight done s refl fits in
    let regroup : all_kept s' ++ kept_in es s' ≡ all_kept s ++ kept_in es s' =
      ap (λ x. x ++ kept_in es s') one in
    run-kept es s' (rw regroup h) ∙ regroup

-- Whatever readings come in, whatever flushes begin, succeed or fail, and however these interleave:
-- as long as the rows kept in all are not more than the limit of the buffer, the rows written, those
-- on their way and those buffered are together exactly the rows that were kept, in their order.
pub no_row_lost :
    (es : List Event) (s : Recorder)
    → length (all_kept s ++ kept_in es s) ≤ max_buffered_rows
    → all_kept (run es s) ≡ all_kept s ++ kept_in es s
no_row_lost es s h = run-kept es s h

drop_suffix :
    (n : ℕ) (items : List Reading) → (front : List Reading) × (front ++ drop n items ≡ items)
drop_suffix n items = (take n items, take-append-drop n items)

-- A flush that fails leaves a buffer within its limit, and what it gives up are the oldest rows.
pub failed_flush_bounded :
    (s : Recorder) {xs ys : List Reading}
    → s.in_flight ≡ some (xs, ys)
    → (length (end_flush false s).samples ≤ max_buffered_rows)
      × ((given_up : List Reading) × (given_up ++ (end_flush false s).samples ≡ xs ++ s.samples))
unfolding end_flush
failed_flush_bounded s {xs = xs} {ys = ys} e = rw e (
  omega (arith, length-drop (length (xs ++ s.samples) - max_buffered_rows) (xs ++ s.samples)),
  drop_suffix (length (xs ++ s.samples) - max_buffered_rows) (xs ++ s.samples),
)
