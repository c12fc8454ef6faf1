-- ===== src/Requests/Laws/Meant.antt =====
-- What holds of the parts of every document that is accepted.
use project_bourne.Prelude.{
  ℕ, ◌≡◌, refl, String, ◌==◌, nat_eq, string_eq, true, false, not, ◌&&◌, Option, none, some, [],
  ◌∷◌, All, leb, arith,
}
use project_bourne.Prelude.Checks.{
  Checked, value, ◌>>=◌, ◌>>◌, guard, Holds, Holds-bind, Holds-any, Holds-self, guarded,
}
use project_bourne.Prelude.Int.{pos, negsuc}
use project_bourne.Json.{
  Json, null, bool, float, int, str, arr, obj, nil, Fields, items_length, get,
}
use project_bourne.Requests.Values.{
  integer_item, resource_integer, lookup, optional_object, reject_unknown, bounded_string,
  string_list, max_request_argv, bounded_text,
}
use project_bourne.Requests.Models.{check_optional_text}
use project_bourne.Requests.Laws.Checks.{Good, parse_items-Good}
use project_bourne.Requests.Laws.Resources.{Amounts}
use project_bourne.Requests.Laws.Written.{Constrained}
use project_bourne.Requests.Parse.{
  Intent, root_fields, get_or, parse_version, optional_amount, optional_string, backend_choice,
  is_lsf, check_list, resources_of, execution_of, checks_of, parse_artifacts, parse_resources,
  parse_execution, parse_parent, parse_telemetry, parse_checks, parse_intent,
}
use project_bourne.Requests.Amounts.{parse_memory, parse_walltime}
use project_bourne.Requests.Laws.Positive.{Positive, parse_memory-Positive, parse_walltime-Positive}
use project_bourne.Planning.Shape.{at_least_one}

abbrev AtLeastOne : Option ℕ → Type 0
AtLeastOne n = at_least_one n ≡ true

integer_item-AtLeastOne : (key : String) (o : Option Json) → Holds AtLeastOne (integer_item key 1 o)
unfolding integer_item
integer_item-AtLeastOne key none = refl
integer_item-AtLeastOne key (some (int (pos n))) = ground arith
integer_item-AtLeastOne key (some (int (negsuc n))) = tt
integer_item-AtLeastOne key (some null) = tt
integer_item-AtLeastOne key (some (bool b)) = tt
integer_item-AtLeastOne key (some (float f)) = tt
integer_item-AtLeastOne key (some (str s)) = tt
integer_item-AtLeastOne key (some (arr items)) = tt
integer_item-AtLeastOne key (some (obj fields)) = tt

resource_integer-AtLeastOne :
    (key : String) (fields : Fields) → Holds AtLeastOne (resource_integer key 1 fields)
unfolding resource_integer
resource_integer-AtLeastOne key fields = integer_item-AtLeastOne key (lookup fields key)

optional_amount-AtLeastOne :
    (parse : Json → Checked ℕ)
    → ((v : Json) → Holds Positive (parse v))
    → (o : Option Json) → Holds AtLeastOne (optional_amount parse o)
unfolding optional_amount
optional_amount-AtLeastOne parse h none = refl
optional_amount-AtLeastOne parse h (some v) =
    Holds-bind Positive AtLeastOne (parse v) _ (h v) λ n p. ground (arith, p)

resources_of-Amounts : (fields : Fields) → Holds Amounts (resources_of fields)
unfolding resources_of
resources_of-Amounts fields =
    Holds-bind (λ _. Unit {0}) Amounts (reject_unknown "resources" _ fields) _ (Holds-any _)
      λ _ _.
        Holds-bind AtLeastOne Amounts (resource_integer "cpus" 1 fields) _
          (resource_integer-AtLeastOne "cpus" fields)
          λ cpus hc.
            Holds-bind (λ _. Unit {0}) Amounts (resource_integer "gpus" 0 fields) _ (Holds-any _)
              λ gpus _.
                Holds-bind AtLeastOne Amounts (resource_integer "nodes" 1 fields) _
                  (resource_integer-AtLeastOne "nodes" fields)
                  λ nodes hn.
                    Holds-bind AtLeastOne Amounts (resource_integer "mpi_ranks" 1 fields) _
                      (resource_integer-AtLeastOne "mpi_ranks" fields)
                      λ ranks hr.
                        Holds-bind AtLeastOne Amounts
                          (optional_amount parse_memory (lookup fields "memory")) _
                          (optional_amount-AtLeastOne parse_memory parse_memory-Positive
                            (lookup fields "memory"))
                          λ memory hm.
                            Holds-bind AtLeastOne Amounts
                              (optional_amount parse_walltime (lookup fields "walltime")) _
                              (optional_amount-AtLeastOne parse_walltime parse_walltime-Positive
                                (lookup fields "walltime"))
                              λ walltime hw. record {
                                cpus = hc;
                                nodes = hn;
                                ranks = hr;
                                memory = hm;
                                walltime = hw;
                              }

abbrev TextOk : String → Option String → Type 0
TextOk label t = check_optional_text label t ≡ value tt

optional_string-TextOk : (l : String) (v : Json) → Holds (TextOk l) (optional_string l v)
unfolding optional_string bounded_string check_optional_text
optional_string-TextOk l (str s) =
    Holds-bind Fits (TextOk l) (bounded_text false l s >> value s) _
      (Holds-bind (λ _. Fits s) Fits (bounded_text false l s) _
        (Holds-self (bounded_text false l s)) λ _ h. h)
      λ _ h. h
  where
    Fits : String → Type 0
    Fits t = bounded_text false l t ≡ value tt
optional_string-TextOk l null = refl
optional_string-TextOk l (bool b) = tt
optional_string-TextOk l (int n) = tt
optional_string-TextOk l (float f) = tt
optional_string-TextOk l (arr items) = tt
optional_string-TextOk l (obj fields) = tt

execution_of-Constrained :
    (version : ℕ) (fields : Fields) → Holds (Constrained version) (execution_of version fields)
unfolding execution_of
execution_of-Constrained version fields =
    Holds-bind (λ _. Unit {0}) (Constrained version)
      (reject_unknown "execution" ("backend" ∷ "target" ∷ "context" ∷ []) fields) _ (Holds-any _)
      λ _ _.
        Holds-bind (λ _. Unit {0}) (Constrained version)
          (bounded_string "execution backend" (get_or fields "backend" (str "auto"))) _
          (Holds-any _)
          λ backend _.
            Holds-bind (TextOk "execution target") (Constrained version)
              (optional_string "execution target" (get fields "target")) _
              (optional_string-TextOk "execution target" (get fields "target"))
              λ target ht.
                Holds-bind (TextOk "execution context") (Constrained version)
                  (optional_string "execution context" (get fields "context")) _
                  (optional_string-TextOk "execution context" (get fields "context"))
                  λ context hc.
                    Holds-bind (λ _. Unit {0}) (Constrained version) (backend_choice backend) _
                      (Holds-any _)
                      λ choice _.
                        Holds-bind (λ _. not (version == 1 && is_lsf choice) ≡ true)
                          (Constrained version) (guard (not (version == 1 && is_lsf choice)) _) _
                          (guarded (not (version == 1 && is_lsf choice)) _)
                          λ _ hf. record { target = ht; context = hc; family = hf }

check_list-Good : (v : Json) → Holds (All Good) (check_list v)
unfolding check_list
check_list-Good (arr items) =
    Holds-bind (λ _. Unit {0}) (All Good) (guard (leb (items_length items) 2048) _) _ (Holds-any _)
      λ _ _. parse_items-Good items
check_list-Good null = tt
check_list-Good (bool b) = tt
check_list-Good (int n) = tt
check_list-Good (float f) = tt
check_list-Good (str s) = tt
check_list-Good (obj fields) = tt

checks_of-Good : (fields : Fields) → Holds (All Good) (checks_of fields)
unfolding checks_of
checks_of-Good fields =
    Holds-bind (λ _. Unit {0}) (All Good) (reject_unknown "verification" ("checks" ∷ []) fields) _
      (Holds-any _) λ _ _. check_list-Good (get_or fields "checks" (arr nil))

-- What a document asks for can be asked for.
pub record Meant (i : Intent) : Type 0 where
  pub amounts : Amounts i.resources
  pub constrained : Constrained i.version i.execution
  pub checks : All Good i.checks

pub parse_intent-Meant : (root : Fields) → Holds Meant (parse_intent root)
unfolding parse_intent parse_resources parse_execution parse_checks
parse_intent-Meant root =
    Holds-bind (λ _. Unit {0}) Meant (reject_unknown "execution request" root_fields root) _
      (Holds-any _)
      λ _ _.
        Holds-bind (λ _. Unit {0}) Meant (parse_version root) _ (Holds-any _)
          λ version _.
            Holds-bind (λ _. Unit {0}) Meant
              (string_list "command" max_request_argv true (get root "command")) _ (Holds-any _)
              λ command _.
                Holds-bind (λ _. Unit {0}) Meant
                  (bounded_string "working directory" (get_or root "working_directory" (str "."))) _
                  (Holds-any _)
                  λ working_directory _.
                    Holds-bind (λ _. Unit {0}) Meant (parse_artifacts root) _ (Holds-any _)
                      λ artifacts _.
                        Holds-bind Amounts Meant (optional_object root "resources" >>= resources_of)
                          _
                          (Holds-bind (λ _. Unit {0}) Amounts (optional_object root "resources") _
                            (Holds-any _) λ fields _. resources_of-Amounts fields)
                          λ resources ha.
                            Holds-bind (Constrained version) Meant
                              (optional_object root "execution" >>= execution_of version) _
                              (Holds-bind (λ _. Unit {0}) (Constrained version)
                                (optional_object root "execution") _ (Holds-any _)
                                λ fields _. execution_of-Constrained version fields)
                              λ execution hc.
                                Holds-bind (λ _. Unit {0}) Meant (parse_parent root) _ (Holds-any _)
                                  λ parent _.
                                    Holds-bind (λ _. Unit {0}) Meant (parse_telemetry root) _
                                      (Holds-any _)
                                      λ telemetry_mode _.
                                        Holds-bind (All Good) Meant
                                          (optional_object root "verification" >>= checks_of) _
                                          (Holds-bind (λ _. Unit {0}) (All Good)
                                            (optional_object root "verification") _ (Holds-any _)
                                            λ fields _. checks_of-Good fields)
                                          λ checks hg. record {
                                            amounts = ha;
                                            constrained = hc;
                                            checks = hg;
                                          }
