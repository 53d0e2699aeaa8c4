-- ===== src/Hostcall/Answered.antt =====
-- What `debug.js` answers when its script has run among others (web/app/hostcall.ts).
use vinx.Prelude.{
  ℕ, ◌≡◌, refl, ap, subst, ◌∙◌, Bool, true, false, Option, none, some, List, ◌++◌, leb,
  if◌then◌else◌, length,
}
use vinx.Prelude.Text.{codes}
use vinx.Prelude.Assoc.{nat_eq}
use vinx.Rpc.Link.State.{inline_max_size}
use vinx.Hostcall.{tmp_prefix, data_plane_unavailable, Result, ok, err, RefIo, Serve, pure, ◌>>=◌}
use vinx.Hostcall.Refs.{is_bare, is_base, safe_id, read_ref, written, write_ref}
use vinx.Hostcall.Staged.{IsRefIo, ref_of, all_append, all-safe_id, read_ref-written}
use vinx.Hostcall.Console.{new_page, Act, page_run}
use vinx.Hostcall.Captures.{heard, page_run_captures}
use vinx.Hostcall.Script.{
  Outcome, JsRun, is_ok_outcome, tail_of, js_output, logs_of, end_run, JsReply, with_output,
  with_output_ref, debug_end,
}

module _ {S : Type 0} (io : RefIo S) (encode : List ℕ → List ℕ) where
  -- The run's verdict and output: in the answer, or in a file that the answer names; or an error, as
  -- that file could not be written.
  abbrev pub IsAnswered : JsRun → S → Result JsReply × S → Type 0
  IsAnswered ran s (ok (with_output is_ok output), s') = (is_ok ≡ ran.is_ok) × (output ≡ ran.output)
  IsAnswered ran s (ok (with_output_ref is_ok path size), s') =
      (is_ok ≡ ran.is_ok)
      × (read_ref io (some (ref_of path size)) s' ≡ (ok (encode ran.output), s'))
  IsAnswered ran s (err f, s') =
      (f ≡ data_plane_unavailable)
      × ((path : List ℕ) × (io.write s path (encode ran.output) ≡ none))
      × (s' ≡ s)

  either_way :
      (ran : JsRun) (s : S) (c : Bool) (x y : Serve S JsReply)
      → IsAnswered ran s (x s)
      → IsAnswered ran s (y s)
      → IsAnswered ran s ((if c then x else y) s)
  either_way ran s true x y hx hy = hx
  either_way ran s false x y hx hy = hy

  js_name : List ℕ → List ℕ
  js_name id = codes "js-" ++ (safe_id id ++ codes ".out")

  js_name-base : (id : List ℕ) → is_base (js_name id) ≡ true
  unfolding js_name
  js_name-base id = all_append is_bare (safe_id id) (codes ".out") (all-safe_id id) refl

  -- What `debug_end` makes of an answer of `write`.
  abbrev after_js : List ℕ → JsRun → Option S → Serve S JsReply
  after_js path ran o = do
    p ← written io path o
    pure (with_output_ref ran.is_ok p (length (encode ran.output)))

  module _ (laws : IsRefIo io) where
    after_js-IsAnswered :
        (id : List ℕ) (ran : JsRun) (s : S) (o : Option S)
        → io.write s (tmp_prefix ++ js_name id) (encode ran.output) ≡ o
        → IsAnswered ran s (after_js (tmp_prefix ++ js_name id) ran o s)
    after_js-IsAnswered id ran s none e = (refl, (tmp_prefix ++ js_name id, e), refl)
    after_js-IsAnswered id ran s (some s') e =
        (refl, read_ref-written io laws s s' (js_name id) (encode ran.output) (js_name-base id) e)

    debug_end-IsAnswered :
        (id : List ℕ) (ran : JsRun) (s : S) → IsAnswered ran s (debug_end io encode id ran s)
    unfolding debug_end write_ref js_name
    debug_end-IsAnswered id ran s =
        either_way ran s (leb (length (encode ran.output)) inline_max_size)
          (pure (with_output ran.is_ok ran.output))
          (λ s'.
            after_js (tmp_prefix ++ js_name id) ran
              (io.write s' (tmp_prefix ++ js_name id) (encode ran.output)) s')
          (refl, refl) (after_js-IsAnswered id ran s _ refl)

    -- Whatever happens on the page before a run of `debug.js` ends: where its sink is open, the answer
    -- is the verdict of how it ended and the output made of the lines logged since the run began, by
    -- whichever script, and of its end; within the answer, or in a file that the machine may name. The
    -- one error is that the file could not be written, and then none is.
    pub debug_end-heard :
        (es : List Act) (k limit : ℕ) (outcome : Outcome) (lines : List (List ℕ)) (id : List ℕ)
        (s : S)
        → heard k 0 es ≡ some lines
        → IsAnswered
            (record {
              is_ok = is_ok_outcome outcome;
              output = js_output lines (tail_of limit outcome);
            })
            s
            (debug_end io encode id (end_run k limit outcome (page_run new_page es)).0 s)
    unfolding end_run
    debug_end-heard es k limit outcome lines id s still =
        subst
          (λ ran.
            IsAnswered ran s
              (debug_end io encode id (end_run k limit outcome (page_run new_page es)).0 s))
          same (debug_end-IsAnswered id (end_run k limit outcome (page_run new_page es)).0 s)
      where
        same : (end_run k limit outcome (page_run new_page es)).0 ≡ record {
          is_ok = is_ok_outcome outcome;
          output = js_output lines (tail_of limit outcome);
        }
        same =
            ap
              (λ o. record {
                is_ok = is_ok_outcome outcome;
                output = js_output (logs_of o) (tail_of limit outcome);
              })
              ((page_run_captures es k).0 ∙ still)
