-- ===== src/Workflow/Tests.antt =====
-- The rules of the diagnosis on one order whose only task is done.
use productline_agent.Base.{sym, ◌≡◌, ◌↔◌, refl, true, false, some, [], ◌∷◌, Text, codes, text_beq}
use productline_agent.Base.Dict
use productline_agent.Workflow.Facts.{
  OrderDiagnosisState, reviewing, completed, resolved, approved, ready,
}
use productline_agent.Workflow.Rules.{
  nothing, evaluate_loaded_facts, evaluate_diagnosis_rules, evaluate_dynamic_diagnosis_rules,
  has_complete_facts, order_matches, delivery_complete,
}
use productline_agent.Workflow.Gaps.{detect, tasks_valid, requires_specification}
use productline_agent.Workflow.Completeness.{complete-detect}
use productline_agent.Workflow.Conclusions.{AreDicts}
use productline_agent.Workflow.Diagnosed.{IsDiagnosed, generate_rule_diagnosis_total}
use productline_agent.Workflow.Stages.{IsClear, nothing-IsClear, dynamic-fixed, dynamic-IsClear}

abbrev order_1 : Text
order_1 = codes "ORDER-1"

abbrev task_1 : Text
task_1 = codes "TASK-1"

abbrev issue_1 : Text
issue_1 = codes "ISSUE-1"

-- A done order: its one quality issue is resolved, with an approved review.
abbrev done : OrderDiagnosisState
done = record {
  order_id = order_1;
  order = some (record { order_id = order_1; product_type = codes "DLG"; status = reviewing });
  tasks = record { task_id = task_1; order_id = order_1; status = completed; version = 2 } ∷ [];
  progress =
      (
        task_1,
        record {
          task_id = task_1;
          steps =
              record {
                step_id = codes "S1";
                task_id = task_1;
                step_name = codes "collect";
                sequence_number = 1;
                status = completed;
              }
              ∷ [];
        },
      )
      ∷ [];
  quality_issues =
      (
        task_1,
        record {
          issue_id = issue_1;
          task_id = task_1;
          issue_type = codes "OTHER";
          status = resolved;
          description = codes "gap";
        }
            ∷ [],
      )
      ∷ [];
  reviews =
      (
        task_1,
        some (record {
          task_id = task_1;
          reviews =
              record {
                review_id = codes "R1";
                issue_id = issue_1;
                status = approved;
                review_comment = some (codes "ok");
              }
              ∷ [];
        }),
      )
      ∷ [];
  delivery = some (record {
    order_id = order_1;
    records = record { delivery_id = codes "D1"; order_id = order_1; status = ready } ∷ [];
  });
  errors = [];
  information_gaps = [];
}

done_complete : has_complete_facts done ≡ true
unfolding has_complete_facts text_beq Dict.lookup
done_complete = refl

done-nothing : evaluate_loaded_facts done ≡ nothing
unfolding evaluate_loaded_facts text_beq
done-nothing = refl

no_specification : requires_specification done ≡ true → false ≡ true
unfolding requires_specification text_beq Dict.lookup
no_specification h = h

complete-detect_example : detect done false ≡ []
complete-detect_example = complete-detect done false done_complete refl no_specification

nothing-IsClear_example : (evaluate_loaded_facts done ≡ nothing) ↔ IsClear done
nothing-IsClear_example = nothing-IsClear done

dynamic-fixed_example : evaluate_dynamic_diagnosis_rules done ≡ evaluate_diagnosis_rules done
dynamic-fixed_example =
    dynamic-fixed done false refl no_specification (sym complete-detect_example) done_complete

dynamic-nothing : (evaluate_dynamic_diagnosis_rules done).blocking_stage ≡ nothing
unfolding evaluate_dynamic_diagnosis_rules text_beq
dynamic-nothing = refl

dynamic-IsClear_example :
    (done.errors ≡ [])
    × (order_matches done.order_id done.order ≡ true)
    × (tasks_valid done ≡ true)
    × (delivery_complete done.order_id done.delivery ≡ true)
    × IsClear done
dynamic-IsClear_example = dynamic-IsClear done false (sym complete-detect_example) dynamic-nothing

done_dicts : AreDicts done
unfolding text_beq
done_dicts = record { progress_once = refl; issues_once = refl; reviews_once = refl }

generate_rule_diagnosis_total_example : IsDiagnosed done (evaluate_diagnosis_rules done)
generate_rule_diagnosis_total_example = generate_rule_diagnosis_total done done_dicts
