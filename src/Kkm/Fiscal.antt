-- ===== src/Kkm/Fiscal.antt =====
-- The queries of src/library/kkm/device.cpp, statement by statement. The comparison of shift numbers in
-- `getShiftState`, which is logged only, is left out.
use kkm_https_adapter.Base.{if◌then◌else◌}
use kkm_https_adapter.Kkm.Driver.{Driver, Param, Command, Constant, constant}
use kkm_https_adapter.Kkm.Results.{
  FndtFnInfo, FndtRegistrationInfo, FndtLastRegistration, FndtLastReceipt, FndtLastDocument,
  FndtErrors, FfdVersion, FwVersion,
}
use kkm_https_adapter.Kkm.Method.{Method, ◌>>◌, put, attempt, read}

module _ (k : Driver) where
  unfoldable pub get_fndt_fn_info : Method FndtFnInfo
  unfolding attempt
  get_fndt_fn_info =
      put Param.fn_data_type (constant Constant.fndt_fn_info)
      >> attempt k Command.fn_query_data
      >> read (λ h a. record a {
        serial = k.get_string h Param.serial_number;
        version = k.get_string h Param.fn_version;
        execution = k.get_string h Param.fn_execution;
        type = k.get_int h Param.fn_type;
        state = k.get_int h Param.fn_state;
        flags = k.get_int h Param.fn_flags;
        need_replacement = k.get_bool h Param.fn_need_replacement;
        exhausted = k.get_bool h Param.fn_resource_exhausted;
        memory_overflow = k.get_bool h Param.fn_memory_overflow;
        ofd_timeout = k.get_bool h Param.fn_ofd_timeout;
        critical_error = k.get_bool h Param.fn_critical_error;
        keys_updater_server_uri =
            if k.get_bool h Param.fn_contains_keys_updater_server_uri
            then k.get_string h Param.fn_keys_updater_server_uri
            else a.keys_updater_server_uri;
      })

  unfoldable pub get_fndt_registration_info : Method FndtRegistrationInfo
  unfolding attempt
  get_fndt_registration_info =
      put Param.fn_data_type (constant Constant.fndt_reg_info)
      >> attempt k Command.fn_query_data
      >> read (λ h a. record a {
        fns_url = k.get_string h (Param.requisite 1060);
        organization_address = k.get_string h (Param.requisite 1009);
        organization_vatin = k.get_string h (Param.requisite 1018);
        organization_name = k.get_string h (Param.requisite 1048);
        organization_email = k.get_string h (Param.requisite 1117);
        payments_address = k.get_string h (Param.requisite 1187);
        registration_number = k.get_string h (Param.requisite 1037);
        machine_number = k.get_string h (Param.requisite 1036);
        ofd_vatin = k.get_string h (Param.requisite 1017);
        ofd_name = k.get_string h (Param.requisite 1046);
        taxation_types = k.get_int h (Param.requisite 1062);
        agent_sign = k.get_int h (Param.requisite 1057);
        ffd_version = k.get_int h (Param.requisite 1209);
        auto_mode_sign = k.get_bool h (Param.requisite 1001);
        offline_mode_sign = k.get_bool h (Param.requisite 1002);
        encryption_sign = k.get_bool h (Param.requisite 1056);
        internet_sign = k.get_bool h (Param.requisite 1108);
        service_sign = k.get_bool h (Param.requisite 1109);
        bso_sign = k.get_bool h (Param.requisite 1110);
        lottery_sign = k.get_bool h (Param.requisite 1126);
        gambling_sign = k.get_bool h (Param.requisite 1193);
        excise_sign = k.get_bool h (Param.requisite 1207);
        machine_installation_sign = k.get_bool h (Param.requisite 1221);
        trade_marked_products = k.get_bool h Param.trade_marked_products;
        insurance_activity = k.get_bool h Param.insurance_activity;
        pawn_shop_activity = k.get_bool h Param.pawn_shop_activity;
        vending = k.get_bool h Param.vending;
        catering = k.get_bool h Param.catering;
        wholesale = k.get_bool h Param.wholesale;
      })

  unfoldable pub get_fndt_last_registration : Method FndtLastRegistration
  unfolding attempt
  get_fndt_last_registration =
      put Param.fn_data_type (constant Constant.fndt_last_registration)
      >> attempt k Command.fn_query_data
      >> read (λ h a. record a {
        document_number = k.get_int h Param.document_number;
        registrations_count = k.get_int h Param.registrations_count;
        registration_date_time = k.get_date_time h Param.date_time;
      })

  unfoldable pub get_fndt_last_receipt : Method FndtLastReceipt
  unfolding attempt
  get_fndt_last_receipt =
      put Param.fn_data_type (constant Constant.fndt_last_receipt)
      >> attempt k Command.fn_query_data
      >> read (λ h a. record a {
        document_number = k.get_int h Param.document_number;
        receipt_sum = k.get_double h Param.receipt_sum;
        fiscal_sign = k.get_string h Param.fiscal_sign;
        document_date_time = k.get_date_time h Param.date_time;
      })

  unfoldable pub get_fndt_last_document : Method FndtLastDocument
  unfolding attempt
  get_fndt_last_document =
      put Param.fn_data_type (constant Constant.fndt_last_document)
      >> attempt k Command.fn_query_data
      >> read (λ h a. record a {
        document_number = k.get_int h Param.document_number;
        fiscal_sign = k.get_string h Param.fiscal_sign;
        document_date_time = k.get_date_time h Param.date_time;
      })

  unfoldable pub get_fndt_errors : Method FndtErrors
  unfolding attempt
  get_fndt_errors =
      put Param.fn_data_type (constant Constant.fndt_errors)
      >> attempt k Command.fn_query_data
      >> read (λ h a. record a {
        network_error = k.get_int h Param.network_error;
        network_error_text = k.get_string h Param.network_error_text;
        ofd_error = k.get_int h Param.ofd_error;
        ofd_error_text = k.get_string h Param.ofd_error_text;
        fn_error = k.get_int h Param.fn_error;
        fn_error_text = k.get_string h Param.fn_error_text;
        document_number = k.get_int h Param.document_number;
        command_code = k.get_int h Param.command_code;
        success_date_time = k.get_date_time h Param.date_time;
        data_for_send_is_empty = k.get_bool h Param.data_for_send_is_empty;
      })

  unfoldable pub get_ffd_version : Method FfdVersion
  unfolding attempt
  get_ffd_version =
      put Param.fn_data_type (constant Constant.fndt_ffd_versions)
      >> attempt k Command.fn_query_data
      >> read (λ h a. record a {
        device_ffd_version = k.get_int h Param.device_ffd_version;
        dev_min_ffd_version = k.get_int h Param.device_min_ffd_version;
        dev_max_ffd_version = k.get_int h Param.device_max_ffd_version;
        fn_ffd_version = k.get_int h Param.fn_ffd_version;
        fn_max_ffd_version = k.get_int h Param.fn_max_ffd_version;
        ffd_version = k.get_int h Param.ffd_version;
      })

  unfoldable pub get_fw_version : Method FwVersion
  unfolding attempt
  get_fw_version =
      put Param.data_type (constant Constant.dt_unit_version)
      >> put Param.unit_type (constant Constant.ut_firmware)
      >> attempt k Command.query_data
      >> read (λ h a. record a { firmware_version = k.get_string h Param.unit_version })
      >> put Param.data_type (constant Constant.dt_unit_version)
      >> put Param.unit_type (constant Constant.ut_configuration)
      >> attempt k Command.query_data
      >> read (λ h a. record a {
        configuration_version = k.get_string h Param.unit_version;
        release_version = k.get_string h Param.unit_release_version;
      })
      >> put Param.data_type (constant Constant.dt_unit_version)
      >> put Param.unit_type (constant Constant.ut_templates)
      >> attempt k Command.query_data
      >> read (λ h a. record a { templates_version = k.get_string h Param.unit_version })
      >> put Param.data_type (constant Constant.dt_unit_version)
      >> put Param.unit_type (constant Constant.ut_control_unit)
      >> attempt k Command.query_data
      >> read (λ h a. record a { control_unit_version = k.get_string h Param.unit_version })
      >> put Param.data_type (constant Constant.dt_unit_version)
      >> put Param.unit_type (constant Constant.ut_boot)
      >> attempt k Command.query_data
      >> read (λ h a. record a { boot_version = k.get_string h Param.unit_version })
