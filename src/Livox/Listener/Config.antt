-- ===== src/Livox/Listener/Config.antt =====
-- LivoxClient::config of code/LivoxClient.h: the text that the SDK's configuration file is made of.
use mandeye_controller.Prelude.{List, [], ◌∷◌, ◌++◌, Text, codes}
use Prim.Native.String.{String}

abbrev newline : Text
newline = 10 ∷ []

abbrev lines_of : List String → Text
lines_of [] = []
lines_of (line ∷ rest) = codes line ++ (newline ++ lines_of rest)

unfoldable pub config : Text
config = lines_of (
    "" ∷ "{" ∷ "\t\"MID360\": {" ∷ "\t\t\"lidar_net_info\" : {" ∷ "\t\t\t\"cmd_data_port\": 56100,"
    ∷ "\t\t\t\"push_msg_port\": 56200," ∷ "\t\t\t\"point_data_port\": 56300,"
    ∷ "\t\t\t\"imu_data_port\": 56400," ∷ "\t\t\t\"log_data_port\": 56500" ∷ "\t\t},"
    ∷ "\t\t\"host_net_info\" : {" ∷ "\t\t\t\"cmd_data_ip\" : \"${HOSTIP}\","
    ∷ "\t\t\t\"cmd_data_port\": 56101," ∷ "\t\t\t\"push_msg_ip\": \"${HOSTIP}\","
    ∷ "\t\t\t\"push_msg_port\": 56201," ∷ "\t\t\t\"point_data_ip\": \"${HOSTIP}\","
    ∷ "\t\t\t\"point_data_port\": 56301," ∷ "\t\t\t\"imu_data_ip\" : \"${HOSTIP}\","
    ∷ "\t\t\t\"imu_data_port\": 56401," ∷ "\t\t\t\"log_data_ip\" : \"${HOSTIP}\","
    ∷ "\t\t\t\"log_data_port\": 56501" ∷ "\t\t}" ∷ "\t}," ∷ "\t\"HAP\": {"
    ∷ "\t\t\"lidar_net_info\" : {" ∷ "\t\t\t\"cmd_data_port\": 56000,"
    ∷ "\t\t\t\"push_msg_port\": 0," ∷ "\t\t\t\"point_data_port\": 57000,"
    ∷ "\t\t\t\"imu_data_port\": 58000," ∷ "\t\t\t\"log_data_port\": 59000" ∷ "\t\t},"
    ∷ "\t\t\"host_net_info\" : {" ∷ "\t\t\t\"cmd_data_ip\" : \"${HOSTIP}\","
    ∷ "\t\t\t\"cmd_data_port\": 56000," ∷ "\t\t\t\"push_msg_ip\": \"\","
    ∷ "\t\t\t\"push_msg_port\": 0," ∷ "\t\t\t\"point_data_ip\": \"${HOSTIP}\","
    ∷ "\t\t\t\"point_data_port\": 57000," ∷ "\t\t\t\"imu_data_ip\" : \"${HOSTIP}\","
    ∷ "\t\t\t\"imu_data_port\": 58000," ∷ "\t\t\t\"log_data_ip\" : \"\","
    ∷ "\t\t\t\"log_data_port\": 59000" ∷ "\t\t}" ∷ "\t}" ∷ "}" ∷ "" ∷ [])
