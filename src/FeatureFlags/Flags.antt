-- ===== src/FeatureFlags/Flags.antt =====
-- The flags (sophie_bot/utils/feature_flags.py: FeatureType and FEATURE_FLAGS): a flag is a
-- constructor, in the order of the source, with its name as a text.
pub mod Names
use sophie.Prelude.{Option, List, [], ◌∷◌, Bool, find}
use sophie.FeatureFlags.Numbers.{Text, codes, same_text}

pub data FeatureType : Type 0 where
  ai_summary_model : FeatureType
  ai_filter_handler_model : FeatureType
  ai_filter_daily_chat_limit : FeatureType
  ai_filter_daily_user_limit : FeatureType
  ai_filter_new_user_message_limit : FeatureType
  ai_chatbot_model : FeatureType
  ai_chatbot_strip_alien_html_tags : FeatureType
  ai_chatbot_show_model_name : FeatureType
  ai_chatbot_table_max_columns : FeatureType
  ai_chatbot_table_max_rows : FeatureType
  ai_chatbot_table_card_threshold : FeatureType
  ai_translation_model : FeatureType
  ai_search_provider : FeatureType
  ai_chatbot_system_prompt : FeatureType
  ai_help_system_prompt : FeatureType
  ai_translate_system_prompt : FeatureType
  ai_chat_summaries_prompt : FeatureType
  ai_moderation_reason_prompt : FeatureType
  ai_moderation_reason_model : FeatureType
  ai_filter_suggestions_prompt : FeatureType
  ai_chatbot : FeatureType
  ai_chatbot_modern_context : FeatureType
  ai_chatbot_modern_context_tokens : FeatureType
  ai_chatbot_research_quote : FeatureType
  ai_chatbot_streaming_backoff_seconds : FeatureType
  ai_chatbot_request_limit : FeatureType
  ai_chatbot_tool_calls_limit : FeatureType
  ai_chatbot_response_tokens_limit : FeatureType
  ai_chatbot_history_max_age_minutes : FeatureType
  ai_chatbot_tool_history_max_chars : FeatureType
  ai_translations : FeatureType
  ai_moderation : FeatureType
  ai_moderation_reasons : FeatureType
  ai_moderation_provider : FeatureType
  ai_moderation_notice_delete_after_seconds : FeatureType
  ai_moderation_level_low_multiplier : FeatureType
  ai_moderation_level_normal_multiplier : FeatureType
  ai_moderation_level_high_multiplier : FeatureType
  ai_moderation_threshold_mistral_sexual : FeatureType
  ai_moderation_threshold_mistral_hate_and_discrimination : FeatureType
  ai_moderation_threshold_mistral_violence_and_threats : FeatureType
  ai_moderation_threshold_mistral_dangerous_and_criminal_content : FeatureType
  ai_moderation_threshold_mistral_selfharm : FeatureType
  ai_moderation_threshold_mistral_health : FeatureType
  ai_moderation_threshold_mistral_financial : FeatureType
  ai_moderation_threshold_mistral_law : FeatureType
  ai_moderation_threshold_mistral_pii : FeatureType
  ai_moderation_threshold_openai_sexual : FeatureType
  ai_moderation_threshold_openai_sexual_minors : FeatureType
  ai_moderation_threshold_openai_harassment : FeatureType
  ai_moderation_threshold_openai_harassment_threatening : FeatureType
  ai_moderation_threshold_openai_hate : FeatureType
  ai_moderation_threshold_openai_hate_threatening : FeatureType
  ai_moderation_threshold_openai_illicit : FeatureType
  ai_moderation_threshold_openai_illicit_violent : FeatureType
  ai_moderation_threshold_openai_self_harm : FeatureType
  ai_moderation_threshold_openai_self_harm_intent : FeatureType
  ai_moderation_threshold_openai_self_harm_instructions : FeatureType
  ai_moderation_threshold_openai_violence : FeatureType
  ai_moderation_threshold_openai_violence_graphic : FeatureType
  ai_filters : FeatureType
  ai_filters_jev : FeatureType
  ai_filters_jev_model : FeatureType
  ai_chat_summaries : FeatureType
  ai_chat_summaries_pin : FeatureType
  ai_summary_improved_privacy : FeatureType
  ai_note_titles : FeatureType
  cleannotes : FeatureType
  filters : FeatureType
  filters_silent_mode : FeatureType
  filter_stats : FeatureType
  antiflood : FeatureType
  locks : FeatureType
  group_user_whitelist : FeatureType
  welcomecaptcha : FeatureType
  welcomecaptcha_autokick : FeatureType
  ai_translations_service_tier : FeatureType
  ai_proactive_replies_model : FeatureType
  ai_proactive_replies_prompt : FeatureType
  ai_proactive_replies_service_tier : FeatureType
  ai_proactive_replies_window_seconds : FeatureType
  ai_proactive_replies_max_answers : FeatureType
  ai_proactive_replies_max_reactions : FeatureType
  ai_research_model : FeatureType
  ai_sophie_inspect_model : FeatureType
  ai_sophie_inspect_chats : FeatureType
  ai_sophie_inspect_daily_chat_limit : FeatureType
  ai_sophie_inspect_request_limit : FeatureType
  ai_sophie_inspect_tool_calls_limit : FeatureType
  ai_sophie_inspect_output_tokens_limit : FeatureType
  ai_research_max_rounds : FeatureType
  ai_research_queries_per_round : FeatureType
  ai_research_results_per_query : FeatureType
  ai_research_service_tier : FeatureType
  ai_entertainment_monthly_credits : FeatureType
  connection_webapp_notice : FeatureType

-- `FEATURE_FLAGS`
abbrev pub feature_flags : List FeatureType
feature_flags =
    ai_summary_model ∷ ai_filter_handler_model ∷ ai_filter_daily_chat_limit
    ∷ ai_filter_daily_user_limit ∷ ai_filter_new_user_message_limit ∷ ai_chatbot_model
    ∷ ai_chatbot_strip_alien_html_tags ∷ ai_chatbot_show_model_name ∷ ai_chatbot_table_max_columns
    ∷ ai_chatbot_table_max_rows ∷ ai_chatbot_table_card_threshold ∷ ai_translation_model
    ∷ ai_search_provider ∷ ai_chatbot_system_prompt ∷ ai_help_system_prompt
    ∷ ai_translate_system_prompt ∷ ai_chat_summaries_prompt ∷ ai_moderation_reason_prompt
    ∷ ai_moderation_reason_model ∷ ai_filter_suggestions_prompt ∷ ai_chatbot
    ∷ ai_chatbot_modern_context ∷ ai_chatbot_modern_context_tokens ∷ ai_chatbot_research_quote
    ∷ ai_chatbot_streaming_backoff_seconds ∷ ai_chatbot_request_limit ∷ ai_chatbot_tool_calls_limit
    ∷ ai_chatbot_response_tokens_limit ∷ ai_chatbot_history_max_age_minutes
    ∷ ai_chatbot_tool_history_max_chars ∷ ai_translations ∷ ai_moderation ∷ ai_moderation_reasons
    ∷ ai_moderation_provider ∷ ai_moderation_notice_delete_after_seconds
    ∷ ai_moderation_level_low_multiplier ∷ ai_moderation_level_normal_multiplier
    ∷ ai_moderation_level_high_multiplier ∷ ai_moderation_threshold_mistral_sexual
    ∷ ai_moderation_threshold_mistral_hate_and_discrimination
    ∷ ai_moderation_threshold_mistral_violence_and_threats
    ∷ ai_moderation_threshold_mistral_dangerous_and_criminal_content
    ∷ ai_moderation_threshold_mistral_selfharm ∷ ai_moderation_threshold_mistral_health
    ∷ ai_moderation_threshold_mistral_financial ∷ ai_moderation_threshold_mistral_law
    ∷ ai_moderation_threshold_mistral_pii ∷ ai_moderation_threshold_openai_sexual
    ∷ ai_moderation_threshold_openai_sexual_minors ∷ ai_moderation_threshold_openai_harassment
    ∷ ai_moderation_threshold_openai_harassment_threatening ∷ ai_moderation_threshold_openai_hate
    ∷ ai_moderation_threshold_openai_hate_threatening ∷ ai_moderation_threshold_openai_illicit
    ∷ ai_moderation_threshold_openai_illicit_violent ∷ ai_moderation_threshold_openai_self_harm
    ∷ ai_moderation_threshold_openai_self_harm_intent
    ∷ ai_moderation_threshold_openai_self_harm_instructions
    ∷ ai_moderation_threshold_openai_violence ∷ ai_moderation_threshold_openai_violence_graphic
    ∷ ai_filters ∷ ai_filters_jev ∷ ai_filters_jev_model ∷ ai_chat_summaries ∷ ai_chat_summaries_pin
    ∷ ai_summary_improved_privacy ∷ ai_note_titles ∷ cleannotes ∷ filters ∷ filters_silent_mode
    ∷ filter_stats ∷ antiflood ∷ locks ∷ group_user_whitelist ∷ welcomecaptcha
    ∷ welcomecaptcha_autokick ∷ ai_translations_service_tier ∷ ai_proactive_replies_model
    ∷ ai_proactive_replies_prompt ∷ ai_proactive_replies_service_tier
    ∷ ai_proactive_replies_window_seconds ∷ ai_proactive_replies_max_answers
    ∷ ai_proactive_replies_max_reactions ∷ ai_research_model ∷ ai_sophie_inspect_model
    ∷ ai_sophie_inspect_chats ∷ ai_sophie_inspect_daily_chat_limit ∷ ai_sophie_inspect_request_limit
    ∷ ai_sophie_inspect_tool_calls_limit ∷ ai_sophie_inspect_output_tokens_limit
    ∷ ai_research_max_rounds ∷ ai_research_queries_per_round ∷ ai_research_results_per_query
    ∷ ai_research_service_tier ∷ ai_entertainment_monthly_credits ∷ connection_webapp_notice ∷ []

abbrev pub feature_name : FeatureType → Text
feature_name ai_summary_model = codes "ai_summary_model"
feature_name ai_filter_handler_model = codes "ai_filter_handler_model"
feature_name ai_filter_daily_chat_limit = codes "ai_filter_daily_chat_limit"
feature_name ai_filter_daily_user_limit = codes "ai_filter_daily_user_limit"
feature_name ai_filter_new_user_message_limit = codes "ai_filter_new_user_message_limit"
feature_name ai_chatbot_model = codes "ai_chatbot_model"
feature_name ai_chatbot_strip_alien_html_tags = codes "ai_chatbot_strip_alien_html_tags"
feature_name ai_chatbot_show_model_name = codes "ai_chatbot_show_model_name"
feature_name ai_chatbot_table_max_columns = codes "ai_chatbot_table_max_columns"
feature_name ai_chatbot_table_max_rows = codes "ai_chatbot_table_max_rows"
feature_name ai_chatbot_table_card_threshold = codes "ai_chatbot_table_card_threshold"
feature_name ai_translation_model = codes "ai_translation_model"
feature_name ai_search_provider = codes "ai_search_provider"
feature_name ai_chatbot_system_prompt = codes "ai_chatbot_system_prompt"
feature_name ai_help_system_prompt = codes "ai_help_system_prompt"
feature_name ai_translate_system_prompt = codes "ai_translate_system_prompt"
feature_name ai_chat_summaries_prompt = codes "ai_chat_summaries_prompt"
feature_name ai_moderation_reason_prompt = codes "ai_moderation_reason_prompt"
feature_name ai_moderation_reason_model = codes "ai_moderation_reason_model"
feature_name ai_filter_suggestions_prompt = codes "ai_filter_suggestions_prompt"
feature_name ai_chatbot = codes "ai_chatbot"
feature_name ai_chatbot_modern_context = codes "ai_chatbot_modern_context"
feature_name ai_chatbot_modern_context_tokens = codes "ai_chatbot_modern_context_tokens"
feature_name ai_chatbot_research_quote = codes "ai_chatbot_research_quote"
feature_name ai_chatbot_streaming_backoff_seconds = codes "ai_chatbot_streaming_backoff_seconds"
feature_name ai_chatbot_request_limit = codes "ai_chatbot_request_limit"
feature_name ai_chatbot_tool_calls_limit = codes "ai_chatbot_tool_calls_limit"
feature_name ai_chatbot_response_tokens_limit = codes "ai_chatbot_response_tokens_limit"
feature_name ai_chatbot_history_max_age_minutes = codes "ai_chatbot_history_max_age_minutes"
feature_name ai_chatbot_tool_history_max_chars = codes "ai_chatbot_tool_history_max_chars"
feature_name ai_translations = codes "ai_translations"
feature_name ai_moderation = codes "ai_moderation"
feature_name ai_moderation_reasons = codes "ai_moderation_reasons"
feature_name ai_moderation_provider = codes "ai_moderation_provider"
feature_name ai_moderation_notice_delete_after_seconds =
    codes "ai_moderation_notice_delete_after_seconds"
feature_name ai_moderation_level_low_multiplier = codes "ai_moderation_level_low_multiplier"
feature_name ai_moderation_level_normal_multiplier = codes "ai_moderation_level_normal_multiplier"
feature_name ai_moderation_level_high_multiplier = codes "ai_moderation_level_high_multiplier"
feature_name ai_moderation_threshold_mistral_sexual = codes "ai_moderation_threshold_mistral_sexual"
feature_name ai_moderation_threshold_mistral_hate_and_discrimination =
    codes "ai_moderation_threshold_mistral_hate_and_discrimination"
feature_name ai_moderation_threshold_mistral_violence_and_threats =
    codes "ai_moderation_threshold_mistral_violence_and_threats"
feature_name ai_moderation_threshold_mistral_dangerous_and_criminal_content =
    codes "ai_moderation_threshold_mistral_dangerous_and_criminal_content"
feature_name ai_moderation_threshold_mistral_selfharm =
    codes "ai_moderation_threshold_mistral_selfharm"
feature_name ai_moderation_threshold_mistral_health = codes "ai_moderation_threshold_mistral_health"
feature_name ai_moderation_threshold_mistral_financial =
    codes "ai_moderation_threshold_mistral_financial"
feature_name ai_moderation_threshold_mistral_law = codes "ai_moderation_threshold_mistral_law"
feature_name ai_moderation_threshold_mistral_pii = codes "ai_moderation_threshold_mistral_pii"
feature_name ai_moderation_threshold_openai_sexual = codes "ai_moderation_threshold_openai_sexual"
feature_name ai_moderation_threshold_openai_sexual_minors =
    codes "ai_moderation_threshold_openai_sexual_minors"
feature_name ai_moderation_threshold_openai_harassment =
    codes "ai_moderation_threshold_openai_harassment"
feature_name ai_moderation_threshold_openai_harassment_threatening =
    codes "ai_moderation_threshold_openai_harassment_threatening"
feature_name ai_moderation_threshold_openai_hate = codes "ai_moderation_threshold_openai_hate"
feature_name ai_moderation_threshold_openai_hate_threatening =
    codes "ai_moderation_threshold_openai_hate_threatening"
feature_name ai_moderation_threshold_openai_illicit = codes "ai_moderation_threshold_openai_illicit"
feature_name ai_moderation_threshold_openai_illicit_violent =
    codes "ai_moderation_threshold_openai_illicit_violent"
feature_name ai_moderation_threshold_openai_self_harm =
    codes "ai_moderation_threshold_openai_self_harm"
feature_name ai_moderation_threshold_openai_self_harm_intent =
    codes "ai_moderation_threshold_openai_self_harm_intent"
feature_name ai_moderation_threshold_openai_self_harm_instructions =
    codes "ai_moderation_threshold_openai_self_harm_instructions"
feature_name ai_moderation_threshold_openai_violence =
    codes "ai_moderation_threshold_openai_violence"
feature_name ai_moderation_threshold_openai_violence_graphic =
    codes "ai_moderation_threshold_openai_violence_graphic"
feature_name ai_filters = codes "ai_filters"
feature_name ai_filters_jev = codes "ai_filters_jev"
feature_name ai_filters_jev_model = codes "ai_filters_jev_model"
feature_name ai_chat_summaries = codes "ai_chat_summaries"
feature_name ai_chat_summaries_pin = codes "ai_chat_summaries_pin"
feature_name ai_summary_improved_privacy = codes "ai_summary_improved_privacy"
feature_name ai_note_titles = codes "ai_note_titles"
feature_name cleannotes = codes "cleannotes"
feature_name filters = codes "filters"
feature_name filters_silent_mode = codes "filters_silent_mode"
feature_name filter_stats = codes "filter_stats"
feature_name antiflood = codes "antiflood"
feature_name locks = codes "locks"
feature_name group_user_whitelist = codes "group_user_whitelist"
feature_name welcomecaptcha = codes "welcomecaptcha"
feature_name welcomecaptcha_autokick = codes "welcomecaptcha_autokick"
feature_name ai_translations_service_tier = codes "ai_translations_service_tier"
feature_name ai_proactive_replies_model = codes "ai_proactive_replies_model"
feature_name ai_proactive_replies_prompt = codes "ai_proactive_replies_prompt"
feature_name ai_proactive_replies_service_tier = codes "ai_proactive_replies_service_tier"
feature_name ai_proactive_replies_window_seconds = codes "ai_proactive_replies_window_seconds"
feature_name ai_proactive_replies_max_answers = codes "ai_proactive_replies_max_answers"
feature_name ai_proactive_replies_max_reactions = codes "ai_proactive_replies_max_reactions"
feature_name ai_research_model = codes "ai_research_model"
feature_name ai_sophie_inspect_model = codes "ai_sophie_inspect_model"
feature_name ai_sophie_inspect_chats = codes "ai_sophie_inspect_chats"
feature_name ai_sophie_inspect_daily_chat_limit = codes "ai_sophie_inspect_daily_chat_limit"
feature_name ai_sophie_inspect_request_limit = codes "ai_sophie_inspect_request_limit"
feature_name ai_sophie_inspect_tool_calls_limit = codes "ai_sophie_inspect_tool_calls_limit"
feature_name ai_sophie_inspect_output_tokens_limit = codes "ai_sophie_inspect_output_tokens_limit"
feature_name ai_research_max_rounds = codes "ai_research_max_rounds"
feature_name ai_research_queries_per_round = codes "ai_research_queries_per_round"
feature_name ai_research_results_per_query = codes "ai_research_results_per_query"
feature_name ai_research_service_tier = codes "ai_research_service_tier"
feature_name ai_entertainment_monthly_credits = codes "ai_entertainment_monthly_credits"
feature_name connection_webapp_notice = codes "connection_webapp_notice"

-- `feature in FEATURE_FLAGS`, with the cast to a flag
unfoldable pub feature_of_name : Text → Option FeatureType
feature_of_name name = find (λ feature. same_text (feature_name feature) name) feature_flags

abbrev pub same_feature : FeatureType → FeatureType → Bool
same_feature f g = same_text (feature_name f) (feature_name g)
