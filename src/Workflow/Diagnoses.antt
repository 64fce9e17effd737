-- ===== src/Workflow/Diagnoses.antt =====
-- The diagnoses of the quality control and of the review
-- (agent-service/app/workflows/diagnosis_generation.py).
use productline_agent.Base.{
  ℕ, suc, Bool, true, false, not, Option, none, some, List, [], ◌∷◌, ◌++◌, map, Text, codes,
  text_eq, ◌==◌, any_of, all_of, contains, keep_if, if◌then◌else◌, Result, ok, err,
}
use productline_agent.Base.Dict
use productline_agent.Base.Dict.{Dict}
use productline_agent.Workflow.Facts.{
  TaskDetail, QualityIssue, ReviewRecord, ReviewResult, DeliveryRecord, DeliveryStatus,
  OrderDiagnosisState, is_unresolved, is_resolved, is_approved, is_delivery_blocked,
}
use productline_agent.Workflow.Generation.{
  GenerationFault, no_fact, missing_key, RootCause, Evidence, Suggestion, DiagnosisParts,
  issue_text, review_text, delivery_text, status_path, task_evidence,
}

-- An item of a list with its task and its index.
abbrev pub Indexed : Type 0 → Type 0
Indexed A = Text × (ℕ × A)

unfoldable pub indexed : {A : Type 0} → Text → ℕ → List A → List (Indexed A)
indexed task i [] = []
indexed task i (x ∷ xs) = (task, (i, x)) ∷ indexed task (suc i) xs

abbrev pub item : {A : Type 0} → Indexed A → A
item (task, (i, x)) = x

abbrev pub joined :
    {A : Type 0}
    → Option (List A)
    → Text
    → Result GenerationFault (List (Indexed A))
    → Result GenerationFault (List (Indexed A))
joined none task rest = err missing_key
joined (some xs) task (err e) = err e
joined (some xs) task (ok rest) = ok (indexed task 0 xs ++ rest)

-- The lists of the tasks, in their order, from a dict that has to hold them all.
unfoldable pub all_indexed :
    {A : Type 0}
    → (Text → Option (List A))
    → List TaskDetail
    → Result GenerationFault (List (Indexed A))
unfolding indexed
all_indexed of_task [] = ok []
all_indexed of_task (t ∷ ts) = joined (of_task t.task_id) t.task_id (all_indexed of_task ts)

abbrev pub chosen :
    {A : Type 0}
    → (A → Bool)
    → Result GenerationFault (List (Indexed A))
    → Result GenerationFault (List (Indexed A))
chosen p (err e) = err e
chosen p (ok xs) = ok (keep_if (λ x. p (item x)) xs)

abbrev pub issues_of : OrderDiagnosisState → Text → Option (List QualityIssue)
issues_of s task = Dict.lookup task s.quality_issues

abbrev pub review_list : Option (Option ReviewResult) → Option (List ReviewRecord)
review_list none = none
review_list (some none) = some []
review_list (some (some r)) = some r.reviews

abbrev pub reviews_of : OrderDiagnosisState → Text → Option (List ReviewRecord)
reviews_of s task = review_list (Dict.lookup task s.reviews)

-- `_indexed_issues` and `_indexed_reviews`.
unfoldable pub indexed_issues :
    OrderDiagnosisState
    → (QualityIssue → Bool)
    → Result GenerationFault (List (Indexed QualityIssue))
unfolding all_indexed Dict.lookup
indexed_issues s p = chosen p (all_indexed (issues_of s) s.tasks)

unfoldable pub indexed_reviews :
    OrderDiagnosisState → Result GenerationFault (List (Indexed ReviewRecord))
unfolding all_indexed Dict.lookup
indexed_reviews s = all_indexed (reviews_of s) s.tasks

abbrev pub first_item : {A : Type 0} → (A → Bool) → List (Indexed A) → Option (ℕ × A)
first_item p [] = none
first_item p ((task, (i, x)) ∷ xs) = if p x then some (i, x) else first_item p xs

-- `_append_unique_root_cause`.
abbrev pub append_unique : List RootCause → Text → Text → List RootCause
append_unique causes code description =
    if all_of (λ (c : RootCause). not (c.code == code)) causes
    then causes ++ (record { code = code; description = description } ∷ [])
    else causes

abbrev is_coordinate : QualityIssue → Bool
is_coordinate i = i.issue_type == codes "COORDINATE_SYSTEM"

abbrev issue_evidence : ℕ → QualityIssue → Evidence
issue_evidence index i = record {
  tool_name = codes "get_quality_issues";
  field_path = status_path (codes "issues") index;
  value = issue_text i.status;
  description = i.issue_id ++ (codes "问题状态为" ++ issue_text i.status);
}

abbrev review_evidence : ℕ × ReviewRecord → Evidence
review_evidence (index, r) = record {
  tool_name = codes "get_review_result";
  field_path = status_path (codes "reviews") index;
  value = review_text r.status;
  description = r.review_id ++ (codes "复核状态为" ++ review_text r.status);
}

abbrev pub delivery_evidence : ℕ → DeliveryRecord → Evidence
delivery_evidence index r = record {
  tool_name = codes "get_delivery_status";
  field_path = status_path (codes "records") index;
  value = delivery_text r.status;
  description = r.delivery_id ++ (codes "交付状态为" ++ delivery_text r.status);
}

-- The tasks that have one of the issues.
abbrev pub affected_from : ℕ → List Text → List TaskDetail → List Evidence
affected_from i affected [] = []
affected_from i affected (t ∷ ts) =
    if contains t.task_id affected
    then task_evidence i t ∷ affected_from (suc i) affected ts
    else affected_from (suc i) affected ts

abbrev pub task_of : {A : Type 0} → Indexed A → Text
task_of (task, x) = task

abbrev pub causes_from : List RootCause → List (Indexed QualityIssue) → List RootCause
causes_from causes [] = causes
causes_from causes ((task, (i, x)) ∷ xs) =
    causes_from
      (if is_coordinate x
        then append_unique causes (codes "OPEN_COORDINATE_SYSTEM_ISSUE") (codes "关联任务存在未关闭的坐标系质量问题")
        else append_unique causes (codes "UNRESOLVED_QUALITY_ISSUE") (codes "关联任务存在未处理完的质量问题"))
      xs

abbrev pub issue_evidences : List (Indexed QualityIssue) → List Evidence
issue_evidences [] = []
issue_evidences ((task, (i, x)) ∷ xs) = issue_evidence i x ∷ issue_evidences xs

abbrev records_from : ℕ → List DeliveryRecord → List Evidence
records_from i [] = []
records_from i (r ∷ rs) =
    if is_delivery_blocked r.status
    then delivery_evidence i r ∷ records_from (suc i) rs
    else records_from (suc i) rs

abbrev pub blocked_records : Option DeliveryStatus → List Evidence
blocked_records none = []
blocked_records (some d) = records_from 0 d.records

-- The first review of one of the issues, if it is not approved.
abbrev pub unapproved : Option (ℕ × ReviewRecord) → Option (ℕ × ReviewRecord)
unapproved none = none
unapproved (some (i, r)) = if is_approved r.status then none else some (i, r)

abbrev pub with_review : List RootCause → Option (ℕ × ReviewRecord) → List RootCause
with_review causes none = causes
with_review causes (some r) = append_unique causes (codes "REVIEW_PENDING") (codes "质检复核尚未完成")

abbrev pub review_evidences : Option (ℕ × ReviewRecord) → List Evidence
review_evidences none = []
review_evidences (some r) = review_evidence r ∷ []

abbrev rework : Bool → Suggestion
rework true = record {
  action_type = codes "CREATE_COORDINATE_SYSTEM_REWORK";
  description = codes "创建坐标系处理返工任务";
}
rework false = record {
  action_type = codes "CREATE_QUALITY_REWORK";
  description = codes "创建质量问题返工任务";
}

abbrev pub quality_parts :
    OrderDiagnosisState → List (Indexed QualityIssue) → List (Indexed ReviewRecord) → DiagnosisParts
quality_parts s issues reviews =
    let ids = map (λ (x : Indexed QualityIssue). (item x).issue_id) issues in
    let pending = unapproved (first_item (λ (r : ReviewRecord). contains r.issue_id ids) reviews) in
    record {
      summary = codes "订单阻塞在质量复核环节。";
      root_causes = with_review (causes_from [] issues) pending;
      evidence =
          affected_from 0 (map (λ (x : Indexed QualityIssue). task_of x) issues) s.tasks
          ++ (issue_evidences issues ++ (review_evidences pending ++ blocked_records s.delivery));
      suggestions =
          rework (any_of (λ (x : Indexed QualityIssue). is_coordinate (item x)) issues)
          ∷ record { action_type = codes "RESUBMIT_REVIEW"; description = codes "问题处理完成后重新提交复核" }
          ∷ [];
      confidence = 1;
    }

abbrev pub with_both :
    {A B : Type 0}
    → Result GenerationFault A
    → Result GenerationFault B
    → (A → B → Result GenerationFault DiagnosisParts)
    → Result GenerationFault DiagnosisParts
with_both (err e) b f = err e
with_both (ok a) (err e) f = err e
with_both (ok a) (ok b) f = f a b

-- `_quality_review_diagnosis`.
unfoldable pub quality_review_diagnosis :
    OrderDiagnosisState → Result GenerationFault DiagnosisParts
unfolding indexed_issues indexed_reviews
quality_review_diagnosis s =
    with_both (indexed_issues s (λ i. is_unresolved i.status)) (indexed_reviews s)
      (λ issues reviews. ok (quality_parts s issues reviews))

abbrev pub review_parts : ℕ × ReviewRecord → DiagnosisParts
review_parts r = record {
  summary = codes "订单阻塞在复核环节。";
  root_causes =
      record { code = codes "REVIEW_NOT_APPROVED"; description = codes "质量问题复核尚未通过" } ∷ [];
  evidence = review_evidence r ∷ [];
  suggestions =
      record { action_type = codes "COMPLETE_REVIEW"; description = codes "完成问题处理并重新提交复核" } ∷ [];
  confidence = 1;
}

abbrev pub missing_review_parts : ℕ × QualityIssue → DiagnosisParts
missing_review_parts (index, i) = record {
  summary = codes "订单阻塞在复核环节。";
  root_causes =
      record { code = codes "REVIEW_MISSING"; description = codes "已处理的质量问题尚无通过复核记录" } ∷ [];
  evidence =
      record {
        tool_name = codes "get_quality_issues";
        field_path = status_path (codes "issues") index;
        value = issue_text i.status;
        description = i.issue_id ++ (codes "问题状态为" ++ (issue_text i.status ++ codes "但尚未通过复核"));
      }
      ∷ [];
  suggestions =
      record { action_type = codes "SUBMIT_REVIEW"; description = codes "为已处理问题提交复核" } ∷ [];
  confidence = 1;
}

abbrev pub missing_review : Option (ℕ × QualityIssue) → Result GenerationFault DiagnosisParts
missing_review none = err no_fact
missing_review (some x) = ok (missing_review_parts x)

abbrev pub resolved_issue :
    Result GenerationFault (List (Indexed QualityIssue)) → Result GenerationFault DiagnosisParts
resolved_issue (err e) = err e
resolved_issue (ok issues) = missing_review (first_item (λ i. true) issues)

abbrev pub open_review :
    Option (ℕ × ReviewRecord)
    → Result GenerationFault DiagnosisParts
    → Result GenerationFault DiagnosisParts
open_review none next = next
open_review (some r) next = ok (review_parts r)

abbrev pub reviewed :
    Result GenerationFault (List (Indexed ReviewRecord))
    → Result GenerationFault DiagnosisParts
    → Result GenerationFault DiagnosisParts
reviewed (err e) next = err e
reviewed (ok reviews) next =
    open_review (first_item (λ (r : ReviewRecord). not (is_approved r.status)) reviews) next

-- `_review_diagnosis`.
unfoldable pub review_diagnosis : OrderDiagnosisState → Result GenerationFault DiagnosisParts
unfolding indexed_issues indexed_reviews
review_diagnosis s =
    reviewed (indexed_reviews s) (resolved_issue (indexed_issues s (λ i. is_resolved i.status)))
