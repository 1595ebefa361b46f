-- ===== src/Plugins/Pipeline/Trace.antt =====
-- What a request's body goes through: the specification of the pipeline, and that `Execute` follows it.
use nineguard.Base.{
  ◌≡◌, refl, ap, inl, inr, ℕ, List, [], ◌∷◌, ◌++◌, Option, none, some, Bool, true, false, ◌==◌,
  if◌then◌else◌, Bool-cases,
}
use nineguard.Base.Text.{Text}
use nineguard.Plugins.{ResolvedPlugin}
use nineguard.Plugins.Pipeline.{Json, PluginRun, Runs, PipelineState, Step, going, stopped}
use nineguard.Plugins.Pipeline.Execute.{
  is_closed, passed_over, or_body, settle, run_unless, run_item, run_active, chain, with_error,
  apply_run,
}
use nineguard.Plugins.Pipeline.Call.{call_plugin}

module _ {ℓ} {V : Type ℓ} (unmarshal : Text → Option (Text → Option V)) (json : Json V)
    (runs : Runs V) (format : Text) (bypass : Bool) (applied : Text → Bool) where
  abbrev pub call : ResolvedPlugin unmarshal → (Text → Option V) → PluginRun V
  call item body = call_plugin json runs format body item.plugin item.merged_settings

  -- A body that the plugins turn into another.
  pub data Flow
      : (Text → Option V) → List (ResolvedPlugin unmarshal) → (Text → Option V) → Type ℓ where
    ended : (b : Text → Option V) → Flow b [] b
    passed :
        {b c : Text → Option V} {items : List (ResolvedPlugin unmarshal)}
        (item : ResolvedPlugin unmarshal) (reason : Text)
        → passed_over bypass applied item.plugin ≡ some reason
        → Flow b items c
        → Flow b (item ∷ items) c
    failed_open :
        {b c : Text → Option V} {items : List (ResolvedPlugin unmarshal)}
        (item : ResolvedPlugin unmarshal)
        → passed_over bypass applied item.plugin ≡ none
        → (call item b).rejected ≡ false
        → (call item b).failed ≡ true
        → is_closed item.plugin ≡ false
        → Flow b items c
        → Flow b (item ∷ items) c
    declined :
        {b c : Text → Option V} {items : List (ResolvedPlugin unmarshal)}
        (item : ResolvedPlugin unmarshal)
        → passed_over bypass applied item.plugin ≡ none
        → (call item b).rejected ≡ false
        → (call item b).failed ≡ false
        → (call item b).skipped ≡ true
        → Flow b items c
        → Flow b (item ∷ items) c
    transformed :
        {b c : Text → Option V} {items : List (ResolvedPlugin unmarshal)}
        (item : ResolvedPlugin unmarshal)
        → passed_over bypass applied item.plugin ≡ none
        → (call item b).rejected ≡ false
        → (call item b).failed ≡ false
        → (call item b).skipped ≡ false
        → Flow (or_body b (call item b).modified_body) items c
        → Flow b (item ∷ items) c

  -- A plugin that ends a request, with the status.
  pub data Stops (b : Text → Option V) (item : ResolvedPlugin unmarshal) : ℕ → Type ℓ where
    rejects :
        (call item b).rejected ≡ true
        → Stops b item (if (call item b).reject_code == 0 then 403 else (call item b).reject_code)
    unavailable :
        (call item b).rejected ≡ false
        → (call item b).failed ≡ true
        → is_closed item.plugin ≡ true
        → Stops b item 503

  pub record Blocked (b : Text → Option V) (items : List (ResolvedPlugin unmarshal)) (code : ℕ)
      : Type ℓ where
    pub earlier : List (ResolvedPlugin unmarshal)
    pub item : ResolvedPlugin unmarshal
    pub later : List (ResolvedPlugin unmarshal)
    pub reached : Text → Option V
    pub split : items ≡ earlier ++ (item ∷ later)
    pub flow : Flow b earlier reached
    pub not_passed : passed_over bypass applied item.plugin ≡ none
    pub stops : Stops reached item code

  abbrev pub Traced : (Text → Option V) → List (ResolvedPlugin unmarshal) → Step V → Type ℓ
  Traced b items (going st) = Flow b items st.current_body
  Traced b items (stopped code message st) = Blocked b items code

  -- One more plugin before a traced run.
  module _ (item : ResolvedPlugin unmarshal) (items : List (ResolvedPlugin unmarshal))
      (b c : Text → Option V)
      (first : (d : Text → Option V) (js : List (ResolvedPlugin unmarshal))
        → Flow c js d
        → Flow b (item ∷ js) d) where
    Traced-later : (s : Step V) → Traced c items s → Traced b (item ∷ items) s
    Traced-later (going st) t = first st.current_body items t
    Traced-later (stopped code message st) t = record {
      earlier = item ∷ t.earlier;
      item = t.item;
      later = t.later;
      reached = t.reached;
      split = ap (λ xs. item ∷ xs) t.split;
      flow = first t.reached t.earlier t.flow;
      not_passed = t.not_passed;
      stops = t.stops;
    }

  stopped_here :
      (item : ResolvedPlugin unmarshal) (items : List (ResolvedPlugin unmarshal))
      (b : Text → Option V) (code : ℕ)
      → passed_over bypass applied item.plugin ≡ none
      → Stops b item code
      → Blocked b (item ∷ items) code
  stopped_here item items b code open_here s = record {
    earlier = [];
    item = item;
    later = items;
    reached = b;
    split = refl;
    flow = ended b;
    not_passed = open_here;
    stops = s;
  }

  abbrev rest_of : List (ResolvedPlugin unmarshal) → Step V → Step V
  rest_of items s =
      chain unmarshal json runs format bypass applied
        (run_active unmarshal json runs format bypass applied items) s

  pub run_active-Traced :
      (items : List (ResolvedPlugin unmarshal)) (st : PipelineState V)
      → Traced st.current_body items (run_active unmarshal json runs format bypass applied items st)
  unfolding run_active run_item settle
  run_active-Traced [] st = ended st.current_body
  run_active-Traced (item ∷ items) st =
      by_header (λ s. run_active-Traced items s) (passed_over bypass applied item.plugin) refl
    where
      o : PluginRun V
      o = call item st.current_body

      by_run :
          ((s : PipelineState V)
            → Traced s.current_body items
                (run_active unmarshal json runs format bypass applied items s))
          → passed_over bypass applied item.plugin ≡ none
          → Traced st.current_body (item ∷ items) (rest_of items (settle item.plugin o st))
      by_run ih open_here = elim (Bool-cases o.rejected) [
        | inl r ↦ rw r (stopped_here item items st.current_body _ open_here (rejects r))
        | inr r ↦ elim (Bool-cases o.failed) [
          | inl f ↦ elim (Bool-cases (is_closed item.plugin)) [
            | inl p ↦
                rw (r, f, p)
                  (stopped_here item items st.current_body 503 open_here (unavailable r f p))
            | inr p ↦
                rw (r, f, p)
                  (Traced-later item items st.current_body st.current_body
                    (λ d js t. failed_open item open_here r f p t) _
                    (ih (with_error item.plugin st)))
          ]
          | inr f ↦ elim (Bool-cases o.skipped) [
            | inl s ↦
                rw (r, f, s)
                  (Traced-later item items st.current_body st.current_body
                    (λ d js t. declined item open_here r f s t) _ (ih _))
            | inr s ↦
                rw (r, f, s)
                  (Traced-later item items st.current_body (or_body st.current_body o.modified_body)
                    (λ d js t. transformed item open_here r f s t) _
                    (ih (apply_run item.plugin o st)))
          ]
        ]
      ]

      by_header :
          ((s : PipelineState V)
            → Traced s.current_body items
                (run_active unmarshal json runs format bypass applied items s))
          → (p : Option Text) → passed_over bypass applied item.plugin ≡ p
          → Traced st.current_body
              (item ∷ items)
              (rest_of items (run_unless unmarshal json runs format bypass applied p item st))
      by_header ih none e = by_run ih e
      by_header ih (some reason) e =
          Traced-later item items st.current_body st.current_body (λ d js t. passed item reason e t)
            _ (ih _)
