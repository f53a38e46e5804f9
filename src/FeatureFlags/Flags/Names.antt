-- ===== src/FeatureFlags/Flags/Names.antt =====
-- The names of the flags: a name in a document belongs to one flag at most.
use sophie.Prelude.{true, some, ◌≡◌, refl, sym, ◌∙◌, ap, arith, ◌∷◌, []}
use sophie.FeatureFlags.Numbers.{Text, same_text}
use sophie.FeatureFlags.Flags.{
  ai_summary_model, ai_filter_handler_model, ai_filter_daily_chat_limit, ai_filter_daily_user_limit,
  ai_filter_new_user_message_limit, ai_chatbot_model, ai_chatbot_strip_alien_html_tags,
  ai_chatbot_show_model_name, ai_chatbot_table_max_columns, ai_chatbot_table_max_rows,
  ai_chatbot_table_card_threshold, ai_translation_model, ai_search_provider,
  ai_chatbot_system_prompt, ai_help_system_prompt, ai_translate_system_prompt,
  ai_chat_summaries_prompt, ai_moderation_reason_prompt, ai_moderation_reason_model,
  ai_filter_suggestions_prompt, ai_chatbot, ai_chatbot_modern_context,
  ai_chatbot_modern_context_tokens, ai_chatbot_research_quote, ai_chatbot_streaming_backoff_seconds,
  ai_chatbot_request_limit, ai_chatbot_tool_calls_limit, ai_chatbot_response_tokens_limit,
  ai_chatbot_history_max_age_minutes, ai_chatbot_tool_history_max_chars, ai_translations,
  ai_moderation, ai_moderation_reasons, ai_moderation_provider,
  ai_moderation_notice_delete_after_seconds, ai_moderation_level_low_multiplier,
  ai_moderation_level_normal_multiplier, ai_moderation_level_high_multiplier,
  ai_moderation_threshold_mistral_sexual, ai_moderation_threshold_mistral_hate_and_discrimination,
  ai_moderation_threshold_mistral_violence_and_threats,
  ai_moderation_threshold_mistral_dangerous_and_criminal_content,
  ai_moderation_threshold_mistral_selfharm, ai_moderation_threshold_mistral_health,
  ai_moderation_threshold_mistral_financial, ai_moderation_threshold_mistral_law,
  ai_moderation_threshold_mistral_pii, ai_moderation_threshold_openai_sexual,
  ai_moderation_threshold_openai_sexual_minors, ai_moderation_threshold_openai_harassment,
  ai_moderation_threshold_openai_harassment_threatening, ai_moderation_threshold_openai_hate,
  ai_moderation_threshold_openai_hate_threatening, ai_moderation_threshold_openai_illicit,
  ai_moderation_threshold_openai_illicit_violent, ai_moderation_threshold_openai_self_harm,
  ai_moderation_threshold_openai_self_harm_intent,
  ai_moderation_threshold_openai_self_harm_instructions, ai_moderation_threshold_openai_violence,
  ai_moderation_threshold_openai_violence_graphic, ai_filters, ai_filters_jev, ai_filters_jev_model,
  ai_chat_summaries, ai_chat_summaries_pin, ai_summary_improved_privacy, ai_note_titles, cleannotes,
  filters, filters_silent_mode, filter_stats, antiflood, locks, group_user_whitelist,
  welcomecaptcha, welcomecaptcha_autokick, ai_translations_service_tier, ai_proactive_replies_model,
  ai_proactive_replies_prompt, ai_proactive_replies_service_tier,
  ai_proactive_replies_window_seconds, ai_proactive_replies_max_answers,
  ai_proactive_replies_max_reactions, ai_research_model, ai_sophie_inspect_model,
  ai_sophie_inspect_chats, ai_sophie_inspect_daily_chat_limit, ai_sophie_inspect_request_limit,
  ai_sophie_inspect_tool_calls_limit, ai_sophie_inspect_output_tokens_limit, ai_research_max_rounds,
  ai_research_queries_per_round, ai_research_results_per_query, ai_research_service_tier,
  ai_entertainment_monthly_credits, connection_webapp_notice, FeatureType, feature_name,
  feature_of_name, same_feature,
}

-- The names of the flags are all different and all listed: the name of a flag is looked up as that
-- flag.
pub feature_of_name-feature_name :
    (feature : FeatureType) → feature_of_name (feature_name feature) ≡ some feature
unfolding feature_of_name
feature_of_name-feature_name ai_summary_model = refl
feature_of_name-feature_name ai_filter_handler_model = refl
feature_of_name-feature_name ai_filter_daily_chat_limit = refl
feature_of_name-feature_name ai_filter_daily_user_limit = refl
feature_of_name-feature_name ai_filter_new_user_message_limit = refl
feature_of_name-feature_name ai_chatbot_model = refl
feature_of_name-feature_name ai_chatbot_strip_alien_html_tags = refl
feature_of_name-feature_name ai_chatbot_show_model_name = refl
feature_of_name-feature_name ai_chatbot_table_max_columns = refl
feature_of_name-feature_name ai_chatbot_table_max_rows = refl
feature_of_name-feature_name ai_chatbot_table_card_threshold = refl
feature_of_name-feature_name ai_translation_model = refl
feature_of_name-feature_name ai_search_provider = refl
feature_of_name-feature_name ai_chatbot_system_prompt = refl
feature_of_name-feature_name ai_help_system_prompt = refl
feature_of_name-feature_name ai_translate_system_prompt = refl
feature_of_name-feature_name ai_chat_summaries_prompt = refl
feature_of_name-feature_name ai_moderation_reason_prompt = refl
feature_of_name-feature_name ai_moderation_reason_model = refl
feature_of_name-feature_name ai_filter_suggestions_prompt = refl
feature_of_name-feature_name ai_chatbot = refl
feature_of_name-feature_name ai_chatbot_modern_context = refl
feature_of_name-feature_name ai_chatbot_modern_context_tokens = refl
feature_of_name-feature_name ai_chatbot_research_quote = refl
feature_of_name-feature_name ai_chatbot_streaming_backoff_seconds = refl
feature_of_name-feature_name ai_chatbot_request_limit = refl
feature_of_name-feature_name ai_chatbot_tool_calls_limit = refl
feature_of_name-feature_name ai_chatbot_response_tokens_limit = refl
feature_of_name-feature_name ai_chatbot_history_max_age_minutes = refl
feature_of_name-feature_name ai_chatbot_tool_history_max_chars = refl
feature_of_name-feature_name ai_translations = refl
feature_of_name-feature_name ai_moderation = refl
feature_of_name-feature_name ai_moderation_reasons = refl
feature_of_name-feature_name ai_moderation_provider = refl
feature_of_name-feature_name ai_moderation_notice_delete_after_seconds = refl
feature_of_name-feature_name ai_moderation_level_low_multiplier = refl
feature_of_name-feature_name ai_moderation_level_normal_multiplier = refl
feature_of_name-feature_name ai_moderation_level_high_multiplier = refl
feature_of_name-feature_name ai_moderation_threshold_mistral_sexual = refl
feature_of_name-feature_name ai_moderation_threshold_mistral_hate_and_discrimination = refl
feature_of_name-feature_name ai_moderation_threshold_mistral_violence_and_threats = refl
feature_of_name-feature_name ai_moderation_threshold_mistral_dangerous_and_criminal_content = refl
feature_of_name-feature_name ai_moderation_threshold_mistral_selfharm = refl
feature_of_name-feature_name ai_moderation_threshold_mistral_health = refl
feature_of_name-feature_name ai_moderation_threshold_mistral_financial = refl
feature_of_name-feature_name ai_moderation_threshold_mistral_law = refl
feature_of_name-feature_name ai_moderation_threshold_mistral_pii = refl
feature_of_name-feature_name ai_moderation_threshold_openai_sexual = refl
feature_of_name-feature_name ai_moderation_threshold_openai_sexual_minors = refl
feature_of_name-feature_name ai_moderation_threshold_openai_harassment = refl
feature_of_name-feature_name ai_moderation_threshold_openai_harassment_threatening = refl
feature_of_name-feature_name ai_moderation_threshold_openai_hate = refl
feature_of_name-feature_name ai_moderation_threshold_openai_hate_threatening = refl
feature_of_name-feature_name ai_moderation_threshold_openai_illicit = refl
feature_of_name-feature_name ai_moderation_threshold_openai_illicit_violent = refl
feature_of_name-feature_name ai_moderation_threshold_openai_self_harm = refl
feature_of_name-feature_name ai_moderation_threshold_openai_self_harm_intent = refl
feature_of_name-feature_name ai_moderation_threshold_openai_self_harm_instructions = refl
feature_of_name-feature_name ai_moderation_threshold_openai_violence = refl
feature_of_name-feature_name ai_moderation_threshold_openai_violence_graphic = refl
feature_of_name-feature_name ai_filters = refl
feature_of_name-feature_name ai_filters_jev = refl
feature_of_name-feature_name ai_filters_jev_model = refl
feature_of_name-feature_name ai_chat_summaries = refl
feature_of_name-feature_name ai_chat_summaries_pin = refl
feature_of_name-feature_name ai_summary_improved_privacy = refl
feature_of_name-feature_name ai_note_titles = refl
feature_of_name-feature_name cleannotes = refl
feature_of_name-feature_name filters = refl
feature_of_name-feature_name filters_silent_mode = refl
feature_of_name-feature_name filter_stats = refl
feature_of_name-feature_name antiflood = refl
feature_of_name-feature_name locks = refl
feature_of_name-feature_name group_user_whitelist = refl
feature_of_name-feature_name welcomecaptcha = refl
feature_of_name-feature_name welcomecaptcha_autokick = refl
feature_of_name-feature_name ai_translations_service_tier = refl
feature_of_name-feature_name ai_proactive_replies_model = refl
feature_of_name-feature_name ai_proactive_replies_prompt = refl
feature_of_name-feature_name ai_proactive_replies_service_tier = refl
feature_of_name-feature_name ai_proactive_replies_window_seconds = refl
feature_of_name-feature_name ai_proactive_replies_max_answers = refl
feature_of_name-feature_name ai_proactive_replies_max_reactions = refl
feature_of_name-feature_name ai_research_model = refl
feature_of_name-feature_name ai_sophie_inspect_model = refl
feature_of_name-feature_name ai_sophie_inspect_chats = refl
feature_of_name-feature_name ai_sophie_inspect_daily_chat_limit = refl
feature_of_name-feature_name ai_sophie_inspect_request_limit = refl
feature_of_name-feature_name ai_sophie_inspect_tool_calls_limit = refl
feature_of_name-feature_name ai_sophie_inspect_output_tokens_limit = refl
feature_of_name-feature_name ai_research_max_rounds = refl
feature_of_name-feature_name ai_research_queries_per_round = refl
feature_of_name-feature_name ai_research_results_per_query = refl
feature_of_name-feature_name ai_research_service_tier = refl
feature_of_name-feature_name ai_entertainment_monthly_credits = refl
feature_of_name-feature_name connection_webapp_notice = refl

pub same_text_refl : (s : Text) → same_text s s ≡ true
same_text_refl [] = refl
same_text_refl (c ∷ s) = ground (arith, same_text_refl s)

same_text_sound : (s t : Text) → same_text s t ≡ true → s ≡ t
same_text_sound [] [] h = refl
same_text_sound [] (d ∷ t) h = cc
same_text_sound (c ∷ s) [] h = cc
same_text_sound (c ∷ s) (d ∷ t) h =
    let head : c ≡ d = ground arith in let rest : s ≡ t = same_text_sound s t (ground arith) in cc

some_injective : {f g : FeatureType} → some f ≡ some g → f ≡ g
some_injective h = cc

pub same_feature_sound : (f g : FeatureType) → same_feature f g ≡ true → f ≡ g
same_feature_sound f g h =
    let names = same_text_sound (feature_name f) (feature_name g) h in
    some_injective (
      sym (feature_of_name-feature_name f)
      ∙ ap feature_of_name names
      ∙ feature_of_name-feature_name g)
