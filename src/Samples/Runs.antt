-- ===== src/Samples/Runs.antt =====
-- Runs of the model on the sample world.
use wenjuandiaocha_backend.Base.{pos, negsuc, trim_space, [], ◌∷◌, ◌≡◌, refl}
use wenjuandiaocha_backend.Dao.Exec.{ok}
use wenjuandiaocha_backend.Domain.Logic.{
  is_answered, pick_elem_value, sub_value, pick_comparable, to_float, js_equal, includes, less,
  greater, eval_op, eval_condition, eval_conditions, triggered, apply_action, mark_rule, mark_rules,
  remove_all, evaluate,
}
use wenjuandiaocha_backend.Domain.Validate.{
  handler_message, question_message, validate_questions, validate_survey,
}
use wenjuandiaocha_backend.Domain.Normalize.{
  handler_rows, question_rows, normalize_questions, normalize_survey,
}
use wenjuandiaocha_backend.Domain.Registry.{register_handler, get_handler}
use wenjuandiaocha_backend.Qtype.Register.{register_all}
use wenjuandiaocha_backend.Qtype.Choice.{
  lacks_text, find_option, options_by_value, text_of, value_and_text, read_single_answer,
  read_multi_elem, chosen_message, single_message, single_choice_validate, single_rows,
  single_choice_normalize, elem_round, elem_loop, count_message, after_loop, multi_choice_validate,
  elem_rows, multi_rows, multi_choice_normalize,
}
use wenjuandiaocha_backend.Qtype.Matrix.{
  set_of, read_matrix_answer, str_answered, require_rows, rows_of, text_scalar, choice_entry,
  matrix_single_validate, matrix_single_normalize,
}
use wenjuandiaocha_backend.Qtype.Matrix.Slider.{
  slider_range, slider_entry, is_number, matrix_slider_validate, number_scalar,
  matrix_slider_normalize,
}
use wenjuandiaocha_backend.Qtype.Text.{
  unmarshal_props, text_rows, text_input_validate, textarea_validate,
}
use wenjuandiaocha_backend.Qtype.Scale.{
  num_str, read_range, range_text, scale_validate, scale_normalize,
}
use wenjuandiaocha_backend.Dao.Store.{
  to_not_found, create_user, get_user_by_account, get_user_by_id, create_session, get_session,
  delete_session, get_survey, set_status, set_answer_access, set_display_mode, get_published_schema,
  get_version_schema, count_responses, list_where, list_surveys_by_owner, list_all_surveys,
  create_survey, update_draft,
}
use wenjuandiaocha_backend.Dao.Gen.Responses.{insert_answer_row, add_response, insert_response}
use wenjuandiaocha_backend.Dao.Submission.{answer_row, insert_rows, save_body, save_submission}
use wenjuandiaocha_backend.Service.Submission.{
  unpublished, stale_version, get_published, load_schema, gate, save_valid, submit,
}
use wenjuandiaocha_backend.Service.Survey.Listing.{pages_before, page_offset}
use wenjuandiaocha_backend.Samples.{
  sample_pf, sample_registry, sample_schema, sample_rules, sample_answers, sample_json,
  sample_request, sample_world, visitor,
}

-- Option b hides the matrix.
hidden_run : evaluate sample_pf sample_rules sample_answers ≡ "q2" ∷ []
unfolding apply_action eval_condition eval_conditions eval_op evaluate greater includes is_answered
    js_equal less mark_rule mark_rules pick_comparable pick_elem_value remove_all sub_value to_float
    triggered
hidden_run = refl

-- The sheet is valid although the matrix, which is required, is not complete.
valid_run : validate_survey sample_pf sample_registry sample_schema sample_answers ≡ []
unfolding after_loop apply_action choice_entry chosen_message count_message elem_loop elem_round
    elem_rows eval_condition eval_conditions eval_op evaluate find_option get_handler greater
    handler_message handler_rows includes is_answered is_number js_equal lacks_text less mark_rule
    mark_rules matrix_single_normalize matrix_single_validate matrix_slider_normalize
    matrix_slider_validate multi_choice_normalize multi_choice_validate multi_rows
    normalize_questions normalize_survey num_str number_scalar options_by_value pick_comparable
    pick_elem_value question_message question_rows range_text read_matrix_answer read_multi_elem
    read_range read_single_answer register_all register_handler remove_all require_rows rows_of
    scale_normalize scale_validate set_of single_choice_normalize single_choice_validate
    single_message single_rows slider_entry slider_range str_answered sub_value text_input_validate
    text_of text_rows text_scalar textarea_validate to_float triggered trim_space unmarshal_props
    validate_questions validate_survey value_and_text
valid_run = refl

-- Four rows are stored: two options, the text beside one of them, and the slider.
submit_run :
    (submit sample_pf sample_json sample_registry visitor "p1" sample_request sample_world).0 ≡ ok 4
unfolding add_response after_loop answer_row apply_action choice_entry chosen_message count_message
    count_responses create_session create_survey create_user delete_session elem_loop elem_round
    elem_rows eval_condition eval_conditions eval_op evaluate find_option gate get_handler
    get_published get_published_schema get_session get_survey get_user_by_account get_user_by_id
    get_version_schema greater handler_message handler_rows includes insert_answer_row
    insert_response insert_rows is_answered is_number js_equal lacks_text less list_all_surveys
    list_surveys_by_owner list_where load_schema mark_rule mark_rules matrix_single_normalize
    matrix_single_validate matrix_slider_normalize matrix_slider_validate multi_choice_normalize
    multi_choice_validate multi_rows normalize_questions normalize_survey num_str number_scalar
    options_by_value pick_comparable pick_elem_value question_message question_rows range_text
    read_matrix_answer read_multi_elem read_range read_single_answer register_all register_handler
    remove_all require_rows rows_of save_body save_submission save_valid scale_normalize
    scale_validate set_answer_access set_display_mode set_of set_status single_choice_normalize
    single_choice_validate single_message single_rows slider_entry slider_range stale_version
    str_answered sub_value submit text_input_validate text_of text_rows text_scalar
    textarea_validate to_float to_not_found triggered trim_space unmarshal_props unpublished
    update_draft validate_questions validate_survey value_and_text
submit_run = refl

-- The page number math.MaxInt64 with a hundred rows to the page gives the offset -200.
offset_run : page_offset (pos 9223372036854775807) 100 ≡ negsuc 199
unfolding pages_before page_offset
offset_run = refl
