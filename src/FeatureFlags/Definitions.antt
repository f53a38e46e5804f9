-- ===== src/FeatureFlags/Definitions.antt =====
-- The definitions of the flags (sophie_bot/utils/feature_flags.py: _FEATURE_DEFINITIONS and the
-- functions that read the table).
use sophie.Prelude.{Bool, true, false, Option, none, some, List, [], ◌∷◌}
use sophie.Prelude.Int.{pos}
use sophie.FeatureFlags.Numbers.{Text, codes}
use sophie.FeatureFlags.Values.{
  Floats, bool_value, int_value, float_value, str_value, Value, same_type,
}
use sophie.FeatureFlags.Flags.{
  ai_summary_model, ai_filter_handler_model, ai_filter_daily_chat_limit, ai_filter_daily_user_limit,
  ai_filter_new_user_message_limit, ai_chatbot_model, ai_chatbot_strip_alien_html_tags,
  ai_chatbot_show_model_name, ai_chatbot_table_max_columns, ai_chatbot_table_max_rows,
  ai_chatbot_table_card_threshold, ai_translation_model, ai_search_provider,
  ai_chatbot_system_prompt, ai_help_system_prompt, ai_translate_system_prompt,
  ai_chat_summaries_prompt, ai_moderation_reason_prompt, ai_moderation_reason_model,
  ai_filter_suggestions_prompt, ai_chatbot, ai_chatbot_modern_context,
  ai_chatbot_modern_context_tokens, ai_chatbot_research_quote, ai_chatbot_streaming_backoff_seconds,
  ai_chatbot_request_limit, ai_chatbot_tool_calls_limit, ai_chatbot_response_tokens_limit,
  ai_chatbot_history_max_age_minutes, ai_chatbot_tool_history_max_chars, ai_translations,
  ai_moderation, ai_moderation_reasons, ai_moderation_provider,
  ai_moderation_notice_delete_after_seconds, ai_moderation_level_low_multiplier,
  ai_moderation_level_normal_multiplier, ai_moderation_level_high_multiplier,
  ai_moderation_threshold_mistral_sexual, ai_moderation_threshold_mistral_hate_and_discrimination,
  ai_moderation_threshold_mistral_violence_and_threats,
  ai_moderation_threshold_mistral_dangerous_and_criminal_content,
  ai_moderation_threshold_mistral_selfharm, ai_moderation_threshold_mistral_health,
  ai_moderation_threshold_mistral_financial, ai_moderation_threshold_mistral_law,
  ai_moderation_threshold_mistral_pii, ai_moderation_threshold_openai_sexual,
  ai_moderation_threshold_openai_sexual_minors, ai_moderation_threshold_openai_harassment,
  ai_moderation_threshold_openai_harassment_threatening, ai_moderation_threshold_openai_hate,
  ai_moderation_threshold_openai_hate_threatening, ai_moderation_threshold_openai_illicit,
  ai_moderation_threshold_openai_illicit_violent, ai_moderation_threshold_openai_self_harm,
  ai_moderation_threshold_openai_self_harm_intent,
  ai_moderation_threshold_openai_self_harm_instructions, ai_moderation_threshold_openai_violence,
  ai_moderation_threshold_openai_violence_graphic, ai_filters, ai_filters_jev, ai_filters_jev_model,
  ai_chat_summaries, ai_chat_summaries_pin, ai_summary_improved_privacy, ai_note_titles, cleannotes,
  filters, filters_silent_mode, filter_stats, antiflood, locks, group_user_whitelist,
  welcomecaptcha, welcomecaptcha_autokick, ai_translations_service_tier, ai_proactive_replies_model,
  ai_proactive_replies_prompt, ai_proactive_replies_service_tier,
  ai_proactive_replies_window_seconds, ai_proactive_replies_max_answers,
  ai_proactive_replies_max_reactions, ai_research_model, ai_sophie_inspect_model,
  ai_sophie_inspect_chats, ai_sophie_inspect_daily_chat_limit, ai_sophie_inspect_request_limit,
  ai_sophie_inspect_tool_calls_limit, ai_sophie_inspect_output_tokens_limit, ai_research_max_rounds,
  ai_research_queries_per_round, ai_research_results_per_query, ai_research_service_tier,
  ai_entertainment_monthly_credits, connection_webapp_notice, FeatureType,
}

pub data FeatureValueKind : Type 0 where
  plain ai_model service_tier search_provider moderation_provider : FeatureValueKind

module _ (fl : Floats) where
  pub record FeatureDefinition : Type 0 where
    pub default : Value fl
    pub value_kind : FeatureValueKind

  -- `_FEATURE_DEFINITIONS`
  abbrev pub definition : FeatureType → FeatureDefinition
  definition ai_summary_model = record { default = str_value (codes ""); value_kind = ai_model }
  definition ai_filter_handler_model = record {
    default = str_value (codes "");
    value_kind = ai_model;
  }
  definition ai_filter_daily_chat_limit = record {
    default = int_value (pos 1000);
    value_kind = plain;
  }
  definition ai_filter_daily_user_limit = record {
    default = int_value (pos 10);
    value_kind = plain;
  }
  definition ai_filter_new_user_message_limit = record {
    default = int_value (pos 10);
    value_kind = plain;
  }
  definition ai_chatbot_model = record { default = str_value (codes ""); value_kind = ai_model }
  definition ai_chatbot_strip_alien_html_tags = record {
    default = bool_value true;
    value_kind = plain;
  }
  definition ai_chatbot_show_model_name = record { default = bool_value false; value_kind = plain }
  definition ai_chatbot_table_max_columns = record {
    default = int_value (pos 15);
    value_kind = plain;
  }
  definition ai_chatbot_table_max_rows = record { default = int_value (pos 50); value_kind = plain }
  definition ai_chatbot_table_card_threshold = record {
    default = int_value (pos 8);
    value_kind = plain;
  }
  definition ai_translation_model = record { default = str_value (codes ""); value_kind = ai_model }
  definition ai_search_provider = record {
    default = str_value (codes "kagi");
    value_kind = search_provider;
  }
  definition ai_chatbot_system_prompt = record {
    default = str_value (
        codes
          "You're a telegram bot named Sophie.\nBe funny when the topic is casual.\nSend short messages unless longer explanations are needed.\nDo not reply to many messages at once, focus on the latest message only.\nPrefer to search information in the internet\nOutput Markdown/plain text only; never output raw HTML or Telegram tg:// links.");
    value_kind = plain;
  }
  definition ai_help_system_prompt = record {
    default = str_value (
        codes
          "You're Sophie, a Telegram group management bot, helping a user in a private chat.\nYour only job here is to help them use Sophie: explain features, walk through commands, and troubleshoot their setup.\nAlways call the `sophie_help` tool before describing any command, and read the relevant wiki page with it when a topic needs detail; never invent commands or arguments.\nIf the documentation does not answer a question about how Sophie behaves, use the `sophie_inspect` tool once and explain its answer in your own words.\nSuggest the Sophie features that solve the user's actual problem, including ones they did not ask about.\nRefuse anything that is not about Sophie, however harmless: no general knowledge, no writing, no code, no chit-chat. Say in one sentence that this mode only covers Sophie, and tell them to leave it with the \"Exit AI help\" button below to talk about anything else.");
    value_kind = plain;
  }
  definition ai_translate_system_prompt = record {
    default = str_value (
        codes
          "You're a professional AI translator / transcriber.\nSet translation_explanations to null unless the source is ambiguous, self-contradictory, requires culturally/contextually essential explanation, contains untranslatable idiom/wordplay/polysemy affecting meaning, or needs disambiguation of a proper noun/technical term/abbreviation;if included, keep it concise (≤2 factual sentences).");
    value_kind = plain;
  }
  definition ai_chat_summaries_prompt = record {
    default = str_value (
        codes
          "Summarize the chat day into one short general overview and several topic lines.\nEach topic line must contain a short title, one fitting emoji, and the references of the source messages it is built from.\nOnly reference messages that are present in the provided transcript.\nSkip one-off chatter that does not form a meaningful discussion.\nPrefer topics that include at least three messages or at least two participants, and avoid weak one-person fragments.");
    value_kind = plain;
  }
  definition ai_moderation_reason_prompt = record {
    default = str_value (
        codes
          "Generate a brief, professional moderation reason for restricting a user based on their message.");
    value_kind = plain;
  }
  definition ai_moderation_reason_model = record {
    default = str_value (codes "");
    value_kind = ai_model;
  }
  definition ai_filter_suggestions_prompt = record {
    default = str_value (
        codes
          "You generate Sophie Bot filter handler suggestions.\nReturn 1 to 3 unique suggestions as structured data.");
    value_kind = plain;
  }
  definition ai_chatbot = record { default = bool_value true; value_kind = plain }
  definition ai_chatbot_modern_context = record { default = bool_value false; value_kind = plain }
  definition ai_chatbot_modern_context_tokens = record {
    default = int_value (pos 0);
    value_kind = plain;
  }
  definition ai_chatbot_research_quote = record { default = bool_value true; value_kind = plain }
  definition ai_chatbot_streaming_backoff_seconds = record {
    default = float_value (fl.tenths 15);
    value_kind = plain;
  }
  definition ai_chatbot_request_limit = record { default = int_value (pos 4); value_kind = plain }
  definition ai_chatbot_tool_calls_limit = record {
    default = int_value (pos 6);
    value_kind = plain;
  }
  definition ai_chatbot_response_tokens_limit = record {
    default = int_value (pos 2048);
    value_kind = plain;
  }
  definition ai_chatbot_history_max_age_minutes = record {
    default = int_value (pos 30);
    value_kind = plain;
  }
  definition ai_chatbot_tool_history_max_chars = record {
    default = int_value (pos 4000);
    value_kind = plain;
  }
  definition ai_translations = record { default = bool_value true; value_kind = plain }
  definition ai_moderation = record { default = bool_value true; value_kind = plain }
  definition ai_moderation_reasons = record { default = bool_value true; value_kind = plain }
  definition ai_moderation_provider = record {
    default = str_value (codes "mistral");
    value_kind = moderation_provider;
  }
  definition ai_moderation_notice_delete_after_seconds = record {
    default = int_value (pos 30);
    value_kind = plain;
  }
  definition ai_moderation_level_low_multiplier = record {
    default = float_value (fl.tenths 7);
    value_kind = plain;
  }
  definition ai_moderation_level_normal_multiplier = record {
    default = float_value (fl.tenths 10);
    value_kind = plain;
  }
  definition ai_moderation_level_high_multiplier = record {
    default = float_value (fl.tenths 13);
    value_kind = plain;
  }
  definition ai_moderation_threshold_mistral_sexual = record {
    default = float_value (fl.tenths 5);
    value_kind = plain;
  }
  definition ai_moderation_threshold_mistral_hate_and_discrimination = record {
    default = float_value (fl.tenths 4);
    value_kind = plain;
  }
  definition ai_moderation_threshold_mistral_violence_and_threats = record {
    default = float_value (fl.tenths 4);
    value_kind = plain;
  }
  definition ai_moderation_threshold_mistral_dangerous_and_criminal_content = record {
    default = float_value (fl.tenths 4);
    value_kind = plain;
  }
  definition ai_moderation_threshold_mistral_selfharm = record {
    default = float_value (fl.tenths 3);
    value_kind = plain;
  }
  definition ai_moderation_threshold_mistral_health = record {
    default = float_value (fl.tenths 3);
    value_kind = plain;
  }
  definition ai_moderation_threshold_mistral_financial = record {
    default = float_value (fl.tenths 3);
    value_kind = plain;
  }
  definition ai_moderation_threshold_mistral_law = record {
    default = float_value (fl.tenths 3);
    value_kind = plain;
  }
  definition ai_moderation_threshold_mistral_pii = record {
    default = float_value (fl.tenths 3);
    value_kind = plain;
  }
  definition ai_moderation_threshold_openai_sexual = record {
    default = float_value (fl.tenths 5);
    value_kind = plain;
  }
  definition ai_moderation_threshold_openai_sexual_minors = record {
    default = float_value (fl.tenths 2);
    value_kind = plain;
  }
  definition ai_moderation_threshold_openai_harassment = record {
    default = float_value (fl.tenths 5);
    value_kind = plain;
  }
  definition ai_moderation_threshold_openai_harassment_threatening = record {
    default = float_value (fl.tenths 4);
    value_kind = plain;
  }
  definition ai_moderation_threshold_openai_hate = record {
    default = float_value (fl.tenths 4);
    value_kind = plain;
  }
  definition ai_moderation_threshold_openai_hate_threatening = record {
    default = float_value (fl.tenths 3);
    value_kind = plain;
  }
  definition ai_moderation_threshold_openai_illicit = record {
    default = float_value (fl.tenths 4);
    value_kind = plain;
  }
  definition ai_moderation_threshold_openai_illicit_violent = record {
    default = float_value (fl.tenths 3);
    value_kind = plain;
  }
  definition ai_moderation_threshold_openai_self_harm = record {
    default = float_value (fl.tenths 3);
    value_kind = plain;
  }
  definition ai_moderation_threshold_openai_self_harm_intent = record {
    default = float_value (fl.tenths 3);
    value_kind = plain;
  }
  definition ai_moderation_threshold_openai_self_harm_instructions = record {
    default = float_value (fl.tenths 3);
    value_kind = plain;
  }
  definition ai_moderation_threshold_openai_violence = record {
    default = float_value (fl.tenths 4);
    value_kind = plain;
  }
  definition ai_moderation_threshold_openai_violence_graphic = record {
    default = float_value (fl.tenths 4);
    value_kind = plain;
  }
  definition ai_filters = record { default = bool_value true; value_kind = plain }
  definition ai_filters_jev = record { default = bool_value false; value_kind = plain }
  definition ai_filters_jev_model = record {
    default = str_value (codes "typesafe/jev-1.13");
    value_kind = ai_model;
  }
  definition ai_chat_summaries = record { default = bool_value true; value_kind = plain }
  definition ai_chat_summaries_pin = record { default = bool_value false; value_kind = plain }
  definition ai_summary_improved_privacy = record { default = bool_value false; value_kind = plain }
  definition ai_note_titles = record { default = bool_value true; value_kind = plain }
  definition cleannotes = record { default = bool_value false; value_kind = plain }
  definition filters = record { default = bool_value true; value_kind = plain }
  definition filters_silent_mode = record { default = bool_value true; value_kind = plain }
  definition filter_stats = record { default = bool_value false; value_kind = plain }
  definition antiflood = record { default = bool_value true; value_kind = plain }
  definition locks = record { default = bool_value true; value_kind = plain }
  definition group_user_whitelist = record { default = bool_value false; value_kind = plain }
  definition welcomecaptcha = record { default = bool_value true; value_kind = plain }
  definition welcomecaptcha_autokick = record { default = bool_value true; value_kind = plain }
  definition ai_translations_service_tier = record {
    default = str_value (codes "flex");
    value_kind = service_tier;
  }
  definition ai_proactive_replies_model = record {
    default = str_value (codes "openai/gpt-5-nano");
    value_kind = ai_model;
  }
  definition ai_proactive_replies_prompt = record {
    default = str_value (
        codes
          "Use balanced judgment about whether Sophie should join the conversation. Reply when there is a natural, useful, or funny opportunity, including a clear invitation or an open question Sophie can help with. Do not force a reply: skip generic chatter, arguments, moderation/admin topics, stale topics, or messages that have already moved on. Never duplicate an existing AI reply, bypass safety requirements, or answer unsafe requests. Prefer no action when a reply would be awkward or mediocre. If answering, be brief: 1-2 short sentences, casual, no long explanations or lists unless explicitly needed. React only when the reaction is obviously appropriate and lightweight, and never try to participate in every topic.");
    value_kind = plain;
  }
  definition ai_proactive_replies_service_tier = record {
    default = str_value (codes "flex");
    value_kind = service_tier;
  }
  definition ai_proactive_replies_window_seconds = record {
    default = int_value (pos 180);
    value_kind = plain;
  }
  definition ai_proactive_replies_max_answers = record {
    default = int_value (pos 1);
    value_kind = plain;
  }
  definition ai_proactive_replies_max_reactions = record {
    default = int_value (pos 1);
    value_kind = plain;
  }
  definition ai_research_model = record { default = str_value (codes ""); value_kind = ai_model }
  definition ai_sophie_inspect_model = record {
    default = str_value (codes "");
    value_kind = ai_model;
  }
  definition ai_sophie_inspect_chats = record {
    default = str_value (codes "-1001202504432");
    value_kind = plain;
  }
  definition ai_sophie_inspect_daily_chat_limit = record {
    default = int_value (pos 10);
    value_kind = plain;
  }
  definition ai_sophie_inspect_request_limit = record {
    default = int_value (pos 8);
    value_kind = plain;
  }
  definition ai_sophie_inspect_tool_calls_limit = record {
    default = int_value (pos 10);
    value_kind = plain;
  }
  definition ai_sophie_inspect_output_tokens_limit = record {
    default = int_value (pos 8000);
    value_kind = plain;
  }
  definition ai_research_max_rounds = record { default = int_value (pos 3); value_kind = plain }
  definition ai_research_queries_per_round = record {
    default = int_value (pos 5);
    value_kind = plain;
  }
  definition ai_research_results_per_query = record {
    default = int_value (pos 5);
    value_kind = plain;
  }
  definition ai_research_service_tier = record {
    default = str_value (codes "flex");
    value_kind = service_tier;
  }
  definition ai_entertainment_monthly_credits = record {
    default = int_value (pos 200000);
    value_kind = plain;
  }
  definition connection_webapp_notice = record { default = bool_value false; value_kind = plain }

  abbrev pub get_default_value : FeatureType → Value fl
  get_default_value feature = (definition feature).default

  abbrev pub get_value_kind : FeatureType → FeatureValueKind
  get_value_kind feature = (definition feature).value_kind

  abbrev pub is_valid_value_type : FeatureType → Value fl → Bool
  is_valid_value_type feature value = same_type fl (get_default_value feature) value

abbrev pub service_tier_values : List Text
service_tier_values =
    codes "none" ∷ codes "auto" ∷ codes "default" ∷ codes "flex" ∷ codes "priority" ∷ []

abbrev pub search_provider_values : List Text
search_provider_values = codes "kagi" ∷ codes "tavily" ∷ codes "tinyfish" ∷ []

abbrev pub moderation_provider_values : List Text
moderation_provider_values = codes "mistral" ∷ codes "openai" ∷ []

-- the strings that a flag of a kind takes, `none` where any will do
abbrev pub allowed_of_kind : FeatureValueKind → Option (List Text)
allowed_of_kind service_tier = some service_tier_values
allowed_of_kind search_provider = some search_provider_values
allowed_of_kind moderation_provider = some moderation_provider_values
allowed_of_kind ai_model = none
allowed_of_kind plain = none

abbrev pub get_allowed_string_values : (fl : Floats) → FeatureType → Option (List Text)
get_allowed_string_values fl feature = allowed_of_kind (get_value_kind fl feature)
